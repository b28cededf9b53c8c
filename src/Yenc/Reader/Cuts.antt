-- ===== src/Yenc/Reader/Cuts.antt =====
-- `advance` and `advanceTo` as cuts of the input: where they stop, and that `advanceTo` never throws.
use usebin.Base.{
  ℕ, zero, suc, ◌≤◌, ◌<◌, ◌≡◌, ◌-◌, ◌⊎◌, inl, inr, refl, ap, Bool, true, false, Option, none, some,
  [], ◌∷◌, ◌++◌, arith, Bytes, length, take, drop, find_index, All, take-length, drop-length,
  length-append,
}
use usebin.Yenc.{ok}
use usebin.Yenc.Reader.{Decoder, advance, advance_to}

-- the bytes up to the first that fits, without it, and the bytes from it on
abbrev pub until : (ℕ → Bool) → Bytes → Bytes
until p [] = []
until p (c ∷ cs) = elim (p c) [ true ↦ [] | false ↦ c ∷ until p cs ]

abbrev pub from : (ℕ → Bool) → Bytes → Bytes
from p [] = []
from p (c ∷ cs) = elim (p c) [ true ↦ c ∷ cs | false ↦ from p cs ]

-- the bytes up to the first that fits, with it, and the bytes behind it
abbrev pub through : (ℕ → Bool) → Bytes → Bytes
through p [] = []
through p (c ∷ cs) = elim (p c) [ true ↦ c ∷ [] | false ↦ c ∷ through p cs ]

abbrev pub behind : (ℕ → Bool) → Bytes → Bytes
behind p [] = []
behind p (c ∷ cs) = elim (p c) [ true ↦ cs | false ↦ behind p cs ]

pub advance_lem :
    (a b : Bytes) (d : Decoder)
    → d.encoded ≡ a ++ b
    → advance (length a) d ≡ ok (a, record d { encoded = b })
unfolding advance
advance_lem a b d e = rw e (ground (arith, take-length a b, drop-length a b, length-append a b))

Option-cases : (o : Option ℕ) → (o ≡ none) ⊎ ((n : ℕ) × (o ≡ some n))
Option-cases none = inl refl
Option-cases (some n) = inr (n, refl)

module _ (p : ℕ → Bool) where
  -- what `findIndex` gives, in terms of the cuts
  record Cut (bs : Bytes) (n : ℕ) : Type 0 where
    inside : n < length bs
    taken : take n bs ≡ until p bs
    left : drop n bs ≡ from p bs
    taken_with : take (suc n) bs ≡ through p bs
    left_behind : drop (suc n) bs ≡ behind p bs

  find_index-some : (bs : Bytes) (n : ℕ) → find_index p bs ≡ some n → Cut bs n
  find_index-some [] n h = cc
  find_index-some (c ∷ cs) zero h = ground arith
  find_index-some (c ∷ cs) (suc n) h = ground (arith, find_index-some cs n)

  record Whole (bs : Bytes) : Type 0 where
    all_taken : until p bs ≡ bs
    none_left : from p bs ≡ []
    all_taken_with : through p bs ≡ bs
    none_behind : behind p bs ≡ []

  find_index-none : (bs : Bytes) → find_index p bs ≡ none → Whole bs
  find_index-none [] h = ground arith
  find_index-none (c ∷ cs) h = ground (arith, find_index-none cs)

  take_all : (bs : Bytes) → (take (length bs) bs ≡ bs) × (drop (length bs) bs ≡ [])
  take_all [] = (refl, refl)
  take_all (c ∷ cs) = (ap (c ∷◌) (take_all cs).0, (take_all cs).1)

  index-cases : (bs : Bytes) → (find_index p bs ≡ none) ⊎ ((n : ℕ) × (find_index p bs ≡ some n))
  index-cases bs = Option-cases (find_index p bs)

  -- `advanceTo` up to the byte, or up to the end of the input
  pub advance_to-until :
      (d : Decoder)
      → advance_to p true d ≡ ok (until p d.encoded, record d { encoded = from p d.encoded })
  unfolding advance_to advance
  advance_to-until d = elim (index-cases d.encoded) [
    | inl e ↦ ground (arith, find_index-none d.encoded e, take_all d.encoded)
    | inr (n, e) ↦ ground (arith, find_index-some d.encoded n e)
  ]

  -- `advanceTo` past the byte, or up to the end of the input
  pub advance_to-through :
      (d : Decoder)
      → advance_to p false d ≡ ok (through p d.encoded, record d { encoded = behind p d.encoded })
  unfolding advance_to advance
  advance_to-through d = elim (index-cases d.encoded) [
    | inl e ↦ ground (arith, find_index-none d.encoded e, take_all d.encoded)
    | inr (n, e) ↦ ground (arith, find_index-some d.encoded n e)
  ]

  -- the cuts at a byte that fits, behind bytes that do not
  abbrev pub Misses : Bytes → Type 0
  Misses = All (λ c. p c ≡ false)

  pub until_at : (a : Bytes) (x : ℕ) (b : Bytes) → Misses a → p x ≡ true → until p (a ++ x ∷ b) ≡ a
  until_at [] x b m h = ground arith
  until_at (c ∷ a) x b m h = ground (arith, until_at a x b m.1 h)

  pub from_at :
      (a : Bytes) (x : ℕ) (b : Bytes) → Misses a → p x ≡ true → from p (a ++ x ∷ b) ≡ x ∷ b
  from_at [] x b m h = ground arith
  from_at (c ∷ a) x b m h = ground (arith, from_at a x b m.1 h)

  pub through_at :
      (a : Bytes) (x : ℕ) (b : Bytes) → Misses a → p x ≡ true → through p (a ++ x ∷ b) ≡ a ++ x ∷ []
  through_at [] x b m h = ground arith
  through_at (c ∷ a) x b m h = ground (arith, through_at a x b m.1 h)

  pub behind_at :
      (a : Bytes) (x : ℕ) (b : Bytes) → Misses a → p x ≡ true → behind p (a ++ x ∷ b) ≡ b
  behind_at [] x b m h = ground arith
  behind_at (c ∷ a) x b m h = ground (arith, behind_at a x b m.1 h)

  pub length-from : (bs : Bytes) → length (from p bs) ≤ length bs
  length-from [] = omega arith
  length-from (c ∷ cs) = ground (arith, length-from cs)

  pub length-behind : (bs : Bytes) → length (behind p bs) ≤ length bs - 1
  length-behind [] = omega arith
  length-behind (c ∷ cs) = ground (arith, length-behind cs)
