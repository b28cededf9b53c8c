-- ===== src/Js/Print/RoundTrip.antt =====
-- Printed numbers are read back by `parseInt`.
use native.Mathlib.Nat.{div-add-mod}
use usebin.Base.{
  ℕ, zero, suc, ◌-◌, ◌/◌, ◌%◌, ◌≤◌, ◌<◌, ◌≡◌, ◌≢◌, ◌⊎◌, refl, ◌∙◌, ap, inl, inr, false, Option,
  none, some, [], ◌∷◌, ◌++◌, ==_iff, ◌==◌, Bool-cases, arith, Str, All, All-map_imp, All-append,
  length, replicate,
}
use usebin.Js.Number.{nat}
use usebin.Js.Parse.{
  is_space, strip_hex, signed, unsigned, trim_start, digit_value, read_digits, read_number,
  parse_int,
}
use usebin.Js.Print.{digit, digits, nat_to_string, to_string, pad_start}

-- A digit of a value below the radix.
abbrev pub IsDigit : ℕ → ℕ → Type 0
IsDigit radix c = (d : ℕ) × (d < radix) × (c ≡ digit d)

pub digit_bounds :
    (d : ℕ) → d < 16 → (b'0' ≤ digit d) × (digit d ≤ b'f') × ((digit d ≤ b'9') ⊎ (b'a' ≤ digit d))
unfolding digit
digit_bounds d h = ground arith

digit_value-digit : (d : ℕ) → d < 16 → digit_value (digit d) ≡ some d
unfolding digit digit_value
digit_value-digit d h = ground arith

read_digits-zero : (radix : ℕ) → 2 ≤ radix → read_digits radix 0 (b'0' ∷ []) ≡ 0
unfolding read_digits digit_value
read_digits-zero radix h = ground arith

module _ (radix : ℕ) (two : 2 ≤ radix) (small : radix ≤ 16) where
  rem-lt : (n : ℕ) → n % radix < radix
  rem-lt n = grind arith

  div-lt : (n : ℕ) → n ≢ 0 → n / radix < n
  div-lt n h = grind arith

  digits-IsDigit :
      (f n : ℕ) (out : Str) → All (IsDigit radix) out → All (IsDigit radix) (digits radix f n out)
  unfolding digits
  digits-IsDigit zero n out h = h
  digits-IsDigit (suc f) n out h = elim (Bool-cases (n == 0)) [
    | inl e ↦ rw (e, digits) h
    | inr e ↦
        rw (e, digits)
          (digits-IsDigit f (n / radix) (digit (n % radix) ∷ out) ((n % radix, rem-lt n, refl), h))
  ]

  read_last :
      (n : ℕ) (out : Str)
      → read_digits radix (n / radix) (digit (n % radix) ∷ out) ≡ read_digits radix n out
  unfolding read_digits
  read_last n out = ground (arith, digit_value-digit (n % radix), rem-lt n, div-add-mod n radix)

  read_digits-digits :
      (f n : ℕ) (out : Str)
      → n ≤ f
      → read_digits radix 0 (digits radix f n out) ≡ read_digits radix n out
  unfolding digits
  read_digits-digits zero n out h = let e : n ≡ 0 = omega arith in rw e refl
  read_digits-digits (suc f) n out h = elim (Bool-cases (n == 0)) [
    | inl e ↦ rw (e, digits) (rw ((==_iff n 0).0 e) refl)
    | inr e ↦
        rw (e, digits)
          (read_digits-digits f (n / radix) (digit (n % radix) ∷ out)
              (let l : n / radix < n = div-lt n (ground arith) in omega arith)
            ∙ read_last n out)
  ]

  read_number-cons :
      (c : ℕ) (s : Str)
      → IsDigit radix c
      → read_number radix (c ∷ s) ≡ some (read_digits radix 0 (c ∷ s))
  unfolding read_number read_digits
  read_number-cons c s (d, lt, e) = ground (arith, digit_value-digit d)

  pub nat_to_string-IsDigit : (n : ℕ) → All (IsDigit radix) (nat_to_string radix n)
  unfolding nat_to_string
  nat_to_string-IsDigit n = elim (Bool-cases (n == 0)) [
    | inl e ↦ rw e ((0, omega arith, unfold digit in refl), tt)
    | inr e ↦ rw e (digits-IsDigit n n [] tt)
  ]

  digits-ne-nil : (f n : ℕ) (out : Str) → out ≢ [] → digits radix f n out ≢ []
  unfolding digits
  digits-ne-nil zero n out h = h
  digits-ne-nil (suc f) n out h =
      ground (arith, digits-ne-nil f (n / radix) (digit (n % radix) ∷ out))

  nat_to_string-ne-nil : (n : ℕ) → nat_to_string radix n ≢ []
  unfolding nat_to_string digits
  nat_to_string-ne-nil zero = ground arith
  nat_to_string-ne-nil (suc n) =
      ground (arith, digits-ne-nil n (suc n / radix) (digit (suc n % radix) ∷ []))

  read_digits-nat_to_string : (n : ℕ) → read_digits radix 0 (nat_to_string radix n) ≡ n
  unfolding nat_to_string
  read_digits-nat_to_string n = elim (Bool-cases (n == 0)) [
    | inl e ↦ rw (e, (==_iff n 0).0 e) (read_digits-zero radix two)
    | inr e ↦ rw e (read_digits-digits n n [] (omega arith) ∙ unfold read_digits in refl)
  ]

trim_start-digit : (d : ℕ) (s : Str) → d < 16 → trim_start (digit d ∷ s) ≡ digit d ∷ s
unfolding trim_start is_space digit
trim_start-digit d s h = ground arith

-- Text that begins with a digit has no sign and no white space in front.
parse_int-cons :
    (radix : Option ℕ) (d : ℕ) (s : Str)
    → d < 16
    → parse_int radix (digit d ∷ s) ≡ signed false (unsigned radix (digit d ∷ s))
unfolding parse_int
parse_int-cons radix d s h = rw (trim_start-digit d s h) (ground (arith, digit_bounds d h))

-- The base is not in doubt: no second character is an `x`.
strip_hex-digits : (s : Str) → All (IsDigit 16) s → strip_hex s ≡ none
strip_hex-digits [] h = refl
strip_hex-digits (a ∷ []) h = refl
strip_hex-digits (a ∷ b ∷ s) (ha, ((d, lt, e), hs)) = ground (arith, digit_bounds d lt)

IsDigit-mono : (c : ℕ) → IsDigit 10 c → IsDigit 16 c
IsDigit-mono c (d, lt, e) = (d, omega arith, e)

parse_int-decimal :
    (s : Str) → s ≢ [] → All (IsDigit 10) s → parse_int none s ≡ nat (read_digits 10 0 s)
parse_int-decimal [] ne h = absurd (ne refl)
parse_int-decimal (c ∷ s) ne ((d, lt, e), hs) = ground (
  arith,
  parse_int-cons none d s,
  strip_hex-digits (c ∷ s) (IsDigit-mono c (d, lt, e), All-map_imp IsDigit-mono s hs),
  read_number-cons 10 (omega arith) (omega arith) c s (d, lt, e),
)

parse_int-hex :
    (s : Str) → s ≢ [] → All (IsDigit 16) s → parse_int (some 16) s ≡ nat (read_digits 16 0 s)
parse_int-hex [] ne h = absurd (ne refl)
parse_int-hex (c ∷ s) ne ((d, lt, e), hs) = ground (
  arith,
  parse_int-cons (some 16) d s,
  strip_hex-digits (c ∷ s) ((d, lt, e), hs),
  read_number-cons 16 (omega arith) (omega arith) c s (d, lt, e),
)

-- A printed size is read back.
pub parse_int-to_string : (n : ℕ) → parse_int none (to_string (nat n)) ≡ nat n
unfolding to_string
parse_int-to_string n =
    rw
      (parse_int-decimal _ (nat_to_string-ne-nil 10 (omega arith) (omega arith) n)
        (nat_to_string-IsDigit 10 (omega arith) (omega arith) n))
      (ap nat (read_digits-nat_to_string 10 (omega arith) (omega arith) n))

append-ne-nil : (a : Str) {b : Str} → b ≢ [] → a ++ b ≢ []
append-ne-nil [] h = h
append-ne-nil (x ∷ a) h = λ e. cc

read_digits-replicate :
    (k : ℕ) (s : Str) → read_digits 16 0 (replicate k b'0' ++ s) ≡ read_digits 16 0 s
unfolding read_digits digit_value
read_digits-replicate zero s = refl
read_digits-replicate (suc k) s = read_digits-replicate k s

pub replicate-IsDigit : (k : ℕ) → All (IsDigit 16) (replicate k b'0')
replicate-IsDigit zero = tt
replicate-IsDigit (suc k) = ((0, omega arith, unfold digit in refl), replicate-IsDigit k)

pub pad_start-IsDigit : (width n : ℕ) → All (IsDigit 16) (pad_start width b'0' (nat_to_string 16 n))
unfolding pad_start
pad_start-IsDigit width n =
    All-append (IsDigit 16) (replicate (width - length (nat_to_string 16 n)) b'0') _
      (replicate-IsDigit (width - length (nat_to_string 16 n)))
      (nat_to_string-IsDigit 16 (omega arith) (omega arith) n)

-- A padded checksum is read back.
pub parse_int-pad_start :
    (width n : ℕ) → parse_int (some 16) (pad_start width b'0' (nat_to_string 16 n)) ≡ nat n
unfolding pad_start
parse_int-pad_start width n =
    let k = width - length (nat_to_string 16 n) in
    parse_int-hex _
      (append-ne-nil (replicate k b'0') (nat_to_string-ne-nil 16 (omega arith) (omega arith) n))
      (pad_start-IsDigit width n)
    ∙ ap nat (
        read_digits-replicate k (nat_to_string 16 n)
        ∙ read_digits-nat_to_string 16 (omega arith) (omega arith) n)
