-- ===== src/Js/Print.antt =====
-- `${n}`, `n.toString(16)` and `padStart`.
pub mod RoundTrip
use usebin.Base.{
  ℕ, zero, suc, ◌+◌, ◌-◌, ◌/◌, ◌%◌, ◌≡◌, refl, true, false, [], ◌∷◌, ◌++◌, ltb, ◌==◌, if◌then◌else◌,
  pos, negsuc, Str, codes, length, replicate, Option, none, some,
}
use usebin.Js.Number.{Number, nan, num}

-- the digit of a value below 16
unfoldable pub digit : ℕ → ℕ
digit d = if ltb d 10 then b'0' + d else b'a' + (d - 10)

-- Each round divides by the radix, so `n` rounds are enough for a radix of at least two.
unfoldable pub digits : ℕ → ℕ → ℕ → Str → Str
digits radix zero n out = out
digits radix (suc fuel) n out = elim (n == 0) [
  | true ↦ out
  | false ↦ digits radix fuel (n / radix) (digit (n % radix) ∷ out)
]

unfoldable pub nat_to_string : ℕ → ℕ → Str
nat_to_string radix n = if n == 0 then b'0' ∷ [] else digits radix n n []

-- `${x}`; `undefined` is spelled out
unfoldable pub to_string : Number → Str
to_string nan = codes "NaN"
to_string (num (pos n)) = nat_to_string 10 n
to_string (num (negsuc n)) = b'-' ∷ nat_to_string 10 (suc n)

abbrev pub opt_to_string : Option Number → Str
opt_to_string none = codes "undefined"
opt_to_string (some n) = to_string n

unfoldable pub pad_start : ℕ → ℕ → Str → Str
pad_start width c s = replicate (width - length s) c ++ s

prints :
    (to_string (num (pos 1024)) ≡ codes "1024")
    × (to_string (num (negsuc 0)) ≡ codes "-1")
    × (pad_start 8 b'0' (nat_to_string 16 0xbeef) ≡ codes "0000beef")
unfolding to_string nat_to_string digits digit pad_start
prints = (refl, refl, refl)
