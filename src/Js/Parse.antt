-- ===== src/Js/Parse.antt =====
-- `String.prototype.trim` and `parseInt`.
use usebin.Base.{
  ℕ, zero, suc, ◌+◌, ◌-◌, ◌*◌, ◌≡◌, refl, Bool, true, false, ◌&&◌, ◌||◌, Option, none, some, [],
  ◌∷◌, leb, ltb, ◌==◌, if◌then◌else◌, ℤ, pos, negsuc, Str, codes,
}
use mathlib.Core.List.{reverse}
use usebin.Js.Number.{Number, nan, num, nat}

-- WhiteSpace and LineTerminator of ECMAScript
unfoldable pub is_space : ℕ → Bool
is_space c =
    (leb 9 c && leb c 13)
    || c == 32
    || c == 160
    || c == 0x1680
    || (leb 0x2000 c && leb c 0x200a)
    || c == 0x2028
    || c == 0x2029
    || c == 0x202f
    || c == 0x205f
    || c == 0x3000
    || c == 0xfeff

unfoldable pub trim_start : Str → Str
trim_start [] = []
trim_start (c ∷ s) = elim (is_space c) [ true ↦ trim_start s | false ↦ c ∷ s ]

unfoldable pub trim : Str → Str
trim s = reverse (trim_start (reverse (trim_start s)))

-- the value of a digit in bases up to 36
unfoldable pub digit_value : ℕ → Option ℕ
digit_value c =
    if leb b'0' c && leb c b'9'
    then some (c - b'0')
    else if leb b'a' c && leb c b'z'
    then some (c - b'a' + 10)
    else if leb b'A' c && leb c b'Z'
    then some (c - b'A' + 10)
    else none

abbrev pub below : ℕ → Option ℕ → Option ℕ
below radix none = none
below radix (some d) = if ltb d radix then some d else none

-- the longest prefix of digits, read behind the digits before it
unfoldable pub read_digits : ℕ → ℕ → Str → ℕ
read_digits radix acc [] = acc
read_digits radix acc (c ∷ s) = elim (below radix (digit_value c)) [
  | none ↦ acc
  | some d ↦ read_digits radix (acc * radix + d) s
]

-- at least one digit has to stand there
unfoldable pub read_number : ℕ → Str → Option ℕ
read_number radix [] = none
read_number radix (c ∷ s) = elim (below radix (digit_value c)) [
  | none ↦ none
  | some d ↦ some (read_digits radix d s)
]

abbrev pub negate : ℕ → ℤ
negate zero = pos 0
negate (suc n) = negsuc n

abbrev pub signed : Bool → Option ℕ → Number
signed negative none = nan
signed negative (some n) = num (if negative then negate n else pos n)

-- Behind the sign: `0x` or `0X` selects base 16 where the radix is left out (`none`) or is 16.
abbrev pub strip_hex : Str → Option Str
strip_hex (a ∷ b ∷ s) = if a == b'0' && (b == b'x' || b == b'X') then some s else none
strip_hex _ = none

abbrev pub unsigned : Option ℕ → Str → Option ℕ
unsigned none s = elim (strip_hex s) [ none ↦ read_number 10 s | some t ↦ read_number 16 t ]
unsigned (some radix) s =
    if radix == 16
    then elim (strip_hex s) [ none ↦ read_number 16 s | some t ↦ read_number 16 t ]
    else read_number radix s

abbrev pub after_sign : Option ℕ → Str → Number
after_sign radix [] = nan
after_sign radix (c ∷ s) =
    if c == b'-'
    then signed true (unsigned radix s)
    else if c == b'+'
    then signed false (unsigned radix s)
    else signed false (unsigned radix (c ∷ s))

-- `parseInt(s)` and `parseInt(s, radix)`, for a radix between 2 and 36
unfoldable pub parse_int : Option ℕ → Str → Number
parse_int radix s = after_sign radix (trim_start s)

parses :
    (parse_int none (codes " 128x") ≡ nat 128)
    × (parse_int none (codes "-7") ≡ num (negsuc 6))
    × (parse_int none (codes "0x1F") ≡ nat 31)
    × (parse_int (some 16) (codes "00ff") ≡ nat 255)
    × (parse_int none (codes "q") ≡ nan)
unfolding parse_int trim_start is_space read_number read_digits digit_value
parses = (refl, refl, refl, refl, refl)

trims : trim (codes "  a b\r") ≡ codes "a b"
unfolding trim trim_start is_space
trims = refl
