-- ===== src/Js/Number.antt =====
-- Numbers: NaN, or an integer. The frontend computes with no fraction; an integer below 2^53 is
-- exact, and no larger one is rounded here. An optional field is an `Option`, `none` for `undefined`.
use usebin.Base.{
  ℕ, ◌-◌, ◌%◌, ◌^◌, ◌≡◌, Bool, true, false, Option, none, some, ltb, ◌==◌, ℤ, pos, negsuc, ◌-ℤ◌,
  ltb_ℤ, eqb_ℤ, arith,
}

pub data Number : Type 0 where
  nan : Number
  num : ℤ → Number

abbrev pub nat : ℕ → Number
nat n = num (pos n)

-- `<` is false where a side is NaN
abbrev pub less : Number → Number → Bool
less nan b = false
less (num a) nan = false
less (num a) (num b) = ltb_ℤ a b

-- `===` between numbers; NaN differs from itself
abbrev pub num_eq : Number → Number → Bool
num_eq nan b = false
num_eq (num a) nan = false
num_eq (num a) (num b) = eqb_ℤ a b

-- `===` between two fields that may be `undefined`
abbrev pub opt_eq : Option Number → Option Number → Bool
opt_eq none none = true
opt_eq none (some b) = false
opt_eq (some a) none = false
opt_eq (some a) (some b) = num_eq a b

abbrev pub minus : Number → Number → Number
minus nan b = nan
minus (num a) nan = nan
minus (num a) (num b) = num (a -ℤ b)

-- A field in arithmetic: `undefined` becomes NaN.
abbrev pub to_number : Option Number → Number
to_number none = nan
to_number (some n) = n

-- `x >>> 0` on an integer: the residue modulo 2^32
abbrev pub to_uint32 : ℤ → ℕ
to_uint32 (pos n) = n % 2 ^ 32
to_uint32 (negsuc n) = 2 ^ 32 - 1 - n % 2 ^ 32

pub num_eq-nat : (a b : ℕ) → num_eq (nat a) (nat b) ≡ (a == b)
num_eq-nat a b = ground arith

pub num_eq-nat_self : (a : ℕ) → num_eq (nat a) (nat a) ≡ true
num_eq-nat_self a = ground arith

pub less-nat : (a b : ℕ) → less (nat a) (nat b) ≡ ltb a b
less-nat a b = ground arith
