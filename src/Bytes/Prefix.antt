-- ===== src/Bytes/Prefix.antt =====
-- What `hasPrefix` decides.
use usebin.Base.{
  ℕ, zero, suc, ◌≡◌, refl, sym, ap, ◌∙◌, ◌↔◌, Bool, true, false, ◌&&◌, [], ◌∷◌, ◌++◌, ltb, ◌==◌,
  if◌then◌else◌, arith, Bytes, Str, length, take, drop,
}
use usebin.Bytes.{every_code, has_prefix_at, has_prefix}

-- `prefix` stands at the start of `bytes`.
abbrev pub starts_with : Str → Bytes → Bool
starts_with [] bytes = true
starts_with (u ∷ prefix) [] = false
starts_with (u ∷ prefix) (c ∷ bytes) = c == u && starts_with prefix bytes

every_code-suc :
    (u : ℕ) (prefix : Str) (i : ℕ) (bytes : Bytes)
    → every_code (u ∷ prefix) (suc i) bytes ≡ every_code prefix i bytes
unfolding every_code
every_code-suc u prefix i [] = refl
every_code-suc u prefix i (c ∷ bytes) = ground (arith, every_code-suc u prefix (suc i) bytes)

test_codes :
    (prefix : Str) (bytes : Bytes)
    → (if ltb (length bytes) (length prefix)
        then false
        else every_code prefix 0 (take (length prefix) bytes))
      ≡ starts_with prefix bytes
unfolding every_code
test_codes [] bytes = ground arith
test_codes (u ∷ prefix) [] = ground arith
test_codes (u ∷ prefix) (c ∷ bytes) =
    ground (arith, every_code-suc u prefix 0 (take (length prefix) bytes), test_codes prefix bytes)

pub has_prefix-starts_with :
    (bytes : Bytes) (prefix : Str) → has_prefix bytes prefix ≡ starts_with prefix bytes
unfolding has_prefix
has_prefix-starts_with bytes prefix = test_codes prefix bytes

starts_with_sound :
    (prefix : Str) (bytes : Bytes)
    → starts_with prefix bytes ≡ true
    → (rest : Bytes) × (bytes ≡ prefix ++ rest)
starts_with_sound [] bytes h = (bytes, refl)
starts_with_sound (u ∷ prefix) [] h = ground arith
starts_with_sound (u ∷ prefix) (c ∷ bytes) h =
    let (rest, e) = starts_with_sound prefix bytes (ground arith) in (rest, ground arith)

pub starts_with-append : (prefix rest : Str) → starts_with prefix (prefix ++ rest) ≡ true
starts_with-append [] rest = refl
starts_with-append (u ∷ prefix) rest = ground (arith, starts_with-append prefix rest)

-- `hasPrefix(bytes, prefix, offset)` is true exactly when the bytes behind the first `offset` begin
-- with the characters of the prefix.
pub has_prefix_at_iff :
    (bytes : Bytes) (prefix : Str) (offset : ℕ)
    → (has_prefix_at bytes prefix offset ≡ true)
      ↔ ((rest : Bytes) × (drop offset bytes ≡ prefix ++ rest))
unfolding has_prefix
has_prefix_at_iff bytes prefix offset = (
  λ h. starts_with_sound prefix (drop offset bytes) (sym (at_offset offset) ∙ h),
  λ (rest, e). at_offset offset ∙ ap (starts_with prefix) e ∙ starts_with-append prefix rest,
)
  where
    at_offset : (n : ℕ) → has_prefix_at bytes prefix n ≡ starts_with prefix (drop n bytes)
    at_offset zero = has_prefix-starts_with bytes prefix
    at_offset (suc n) = ground (arith, test_codes prefix (drop (suc n) bytes))
