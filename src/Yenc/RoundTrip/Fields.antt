-- ===== src/Yenc/RoundTrip/Fields.antt =====
-- `readArgument` on an argument as `encode` writes it.
use usebin.Base.{
  ℕ, suc, ◌<◌, ◌≡◌, ◌≢◌, refl, ap, ◌∙◌, Bool, true, false, not, ◌&&◌, ltb, Option, [], ◌∷◌, ◌++◌,
  if◌then◌else◌, arith, Bytes, Str, init-concat, last?-concat, All, All-map_imp,
}
use usebin.Bytes.{to_string}
use usebin.Utf8.RoundTrip.{decode_ascii}
use usebin.Js.Number.{nat}
use usebin.Js.Print
use usebin.Js.Print.RoundTrip.{digit_bounds, IsDigit, nat_to_string-IsDigit}
use usebin.Yenc.{YFile, State, match_crlf, match_eq_crlf, match_sp_crlf, match_not_eq_crlf}
use usebin.Yenc.Reader.{Arg, M, ◌>>=◌, reads_to_eol, next, arguments}
use usebin.Yenc.Reader.Bind.{then_do}
use usebin.Yenc.Reader.Cuts.{Misses, from, through_at, behind_at}
use usebin.Yenc.Reader.Argument.{arg_of, rest_of, read_argument_lem}
use usebin.Yenc.RoundTrip.Steps.{at_text}

-- `key=value` with the character behind it
abbrev pub argument : Str → Bytes → ℕ → Bytes → Bytes
argument key value t rest = key ++ 0x3d ∷ (value ++ t ∷ rest)

-- a key that is read as it is written
abbrev pub IsKey : Str → Type 0
IsKey key = (key ≢ []) × All (λ c. c < 0x80) key × Misses match_eq_crlf key

abbrev pub plain_key : Str → Bool
plain_key [] = true
plain_key (c ∷ key) = ltb c 0x80 && not (match_eq_crlf c) && plain_key key

plain_key-parts :
    (key : Str) → plain_key key ≡ true → All (λ c. c < 0x80) key × Misses match_eq_crlf key
plain_key-parts [] h = (tt, tt)
plain_key-parts (c ∷ key) h = ground (arith, plain_key-parts key)

-- In particular a key of the source.
pub plain_key-IsKey : (c : ℕ) (key : Str) → plain_key (c ∷ key) ≡ true → IsKey (c ∷ key)
plain_key-IsKey c key h = let (a, m) = plain_key-parts (c ∷ key) h in ((λ e. cc), a, m)

from_key :
    (key : Str) (rest : Bytes) → IsKey key → from match_not_eq_crlf (key ++ rest) ≡ key ++ rest
from_key [] rest (n, a, m) = ground (arith, n refl)
from_key (c ∷ key) rest (n, a, m) = ground arith

pub to_string_ascii : (bs : Bytes) → All (λ c. c < 0x80) bs → to_string bs ≡ bs
unfolding to_string
to_string_ascii = decode_ascii

module _ (r : Option (Str → Bool)) (key value rest : Str) (t : ℕ) where
  abbrev pub stop_at : ℕ → Bool
  stop_at = if reads_to_eol r key then match_crlf else match_sp_crlf

  read_field :
      IsKey key
      → Misses stop_at value
      → stop_at t ≡ true
      → (arg_of r (argument key value t rest)
          ≡ record { key = key; value = to_string value; at_eol = match_crlf t })
        × (rest_of r (argument key value t rest) ≡ rest)
  unfolding arg_of rest_of
  read_field (n, a, m) v h =
      rw
        (
          from_key key (0x3d ∷ (value ++ t ∷ rest)) (n, a, m),
          through_at match_eq_crlf key 0x3d (value ++ t ∷ rest) m refl,
          behind_at match_eq_crlf key 0x3d (value ++ t ∷ rest) m refl,
          init-concat key 0x3d,
          to_string_ascii key a,
          through_at stop_at value t rest v h,
          behind_at stop_at value t rest v h,
          init-concat value t,
          last?-concat value t,
        )
        (refl, refl)

  -- A round of the loop over the arguments, on such an argument.
  pub arguments-argument :
      {L : Type 0} (n : ℕ) (body : Arg → L → M L) (l : L) (file : YFile) (st : State)
      → IsKey key
      → Misses stop_at value
      → stop_at t ≡ true
      → arguments (suc n) r body l (at_text file st (argument key value t rest))
        ≡ (body (record { key = key; value = to_string value; at_eol = match_crlf t }) l >>= λ l'.
              next (match_crlf t) l' (arguments n r body l'))
            (at_text file st rest)
  unfolding arguments
  arguments-argument n body l file st k v h =
      let (e, f) = read_field k v h in
      ap (then_do _) (read_argument_lem r (at_text file st (argument key value t rest)))
      ∙ rw (e, f) refl

digit-plain : (c : ℕ) → IsDigit 16 c → (c < 0x80) × (match_sp_crlf c ≡ false)
digit-plain c (d, lt, e) = ground (arith, digit_bounds d lt)

-- Printed numbers are ASCII text with no space and no line break.
pub digits-Misses : (s : Str) → All (IsDigit 16) s → Misses match_sp_crlf s
digits-Misses s h = All-map_imp (λ c i. (digit-plain c i).1) s h

pub digits-ascii : (s : Str) → All (IsDigit 16) s → All (λ c. c < 0x80) s
digits-ascii s h = All-map_imp (λ c i. (digit-plain c i).0) s h

pub decimal-IsDigit : (n : ℕ) → All (IsDigit 16) (Print.to_string (nat n))
unfolding Print.to_string
decimal-IsDigit n =
    All-map_imp (λ c (d, lt, e). (d, omega arith, e)) (Print.nat_to_string 10 n)
      (nat_to_string-IsDigit 10 (omega arith) (omega arith) n)
