-- ===== src/Bytes.antt =====
-- frontend/bytes.ts: `hasPrefix`, `fromString`, `toString`.
pub mod Prefix
pub mod RoundTrip
use usebin.Base.{
  ℕ, zero, suc, ◌≡◌, refl, Bool, true, false, ◌&&◌, Option, none, some, [], ◌∷◌, ltb, ◌==◌,
  if◌then◌else◌, Bytes, Str, codes, length, get_elem?, take, drop,
}
use usebin.Utf8

-- `c === prefix.charCodeAt(i)`; past the end `charCodeAt` is NaN
abbrev is_code : ℕ → Option ℕ → Bool
is_code c none = false
is_code c (some u) = c == u

-- `bytes.every((c, i) => c === prefix.charCodeAt(i))`, from index `i` on
every_code : Str → ℕ → Bytes → Bool
every_code prefix i [] = true
every_code prefix i (c ∷ bytes) = is_code c (get_elem? prefix i) && every_code prefix (suc i) bytes

-- `hasPrefix(bytes, prefix, offset)`
unfoldable pub has_prefix_at : Bytes → Str → ℕ → Bool
unfolding every_code
has_prefix_at bytes prefix offset =
    let rest = if ltb 0 offset then drop offset bytes else bytes in
    if ltb (length rest) (length prefix)
    then false
    else every_code prefix 0 (take (length prefix) rest)

-- with the default offset
unfoldable pub has_prefix : Bytes → Str → Bool
unfolding has_prefix_at
has_prefix bytes prefix = has_prefix_at bytes prefix 0

unfoldable pub from_string : Str → Bytes
from_string = Utf8.encode

unfoldable pub to_string : Bytes → Str
to_string = Utf8.decode

prefixes :
    (has_prefix (codes "=yend size") (codes "=yend ") ≡ true)
    × (has_prefix (codes "=yen") (codes "=yend ") ≡ false)
    × (has_prefix_at (codes "ab=yend ") (codes "=yend ") 2 ≡ true)
unfolding has_prefix
prefixes = (refl, refl, refl)
