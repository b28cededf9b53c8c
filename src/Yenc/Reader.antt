-- ===== src/Yenc/Reader.antt =====
-- The functions of `decode` that read and consume `encoded`: `advance`, `advanceTo`, `readArgument`,
-- and the loops over the arguments of a keyword line.
pub mod Bind
pub mod Cuts
pub mod Argument
pub mod Keeps
pub mod Shrinks
use usebin.Base.{
  ℕ, zero, suc, ◌+◌, ◌≡◌, refl, Bool, true, false, Option, none, some, ltb, if◌then◌else◌, Bytes,
  Str, codes, length, take, drop, find_index, init, last?,
}
use usebin.Bytes.{to_string}
use usebin.Utf8
use usebin.Yenc.{
  YFile, no_fields, State, at_start, YencError, reached_eof, Outcome, ok, throw, spin, match_crlf,
  match_eq_crlf, match_sp_crlf, match_not_eq_crlf,
}

-- the variables of `decode` that its inner functions share
pub record Decoder : Type 0 where
  pub encoded : Bytes
  pub s : State
  pub file : YFile

abbrev pub M : Type 0 → Type 0
M A = Decoder → Outcome (A × Decoder)

infixl 5 ◌>>=◌ ◌>>◌
abbrev pub ◌>>=◌ : {A B : Type 0} → M A → (A → M B) → M B
◌>>=◌ m f d = elim (m d) [ ok (a, d') ↦ f a d' | throw e ↦ throw e | spin ↦ spin ]

abbrev pub ◌>>◌ : {A B : Type 0} → M A → M B → M B
m >> k = m >>= λ _. k

abbrev pub pure : {A : Type 0} → A → M A
pure a d = ok (a, d)

abbrev pub raise : {A : Type 0} → YencError → M A
raise e d = throw e

-- `if (test) throw e;`
abbrev pub throw_if : Bool → YencError → M (Unit {0})
throw_if true e d = throw e
throw_if false e d = ok (tt, d)

abbrev pub get_encoded : M Bytes
get_encoded d = ok (d.encoded, d)

abbrev pub get_state : M State
get_state d = ok (d.s, d)

abbrev pub get_file : M YFile
get_file d = ok (d.file, d)

abbrev pub set_file : YFile → M (Unit {0})
set_file f d = ok (tt, record d { file = f })

abbrev pub set_state : State → M (Unit {0})
set_state s d = ok (tt, record d { s = s })

unfoldable pub advance : ℕ → M Bytes
advance n d =
    if ltb (length d.encoded) n
    then throw reached_eof
    else ok (take n d.encoded, record d { encoded = drop n d.encoded })

-- `advanceTo(predicate, excludeDelim)`
unfoldable pub advance_to : (ℕ → Bool) → Bool → M Bytes
advance_to predicate exclude_delim d = elim (find_index predicate d.encoded) [
  | none ↦ advance (length d.encoded) d
  | some n ↦ advance (if exclude_delim then n else n + 1) d
]

pub record Arg : Type 0 where
  pub key : Str
  pub value : Str
  pub at_eol : Bool

-- `matchCRLF(token[token.byteLength - 1])`; of an empty token the last byte is `undefined`
abbrev pub ends_line : Option ℕ → Bool
ends_line none = false
ends_line (some c) = match_crlf c

-- `readToEOL && readToEOL(key)`
abbrev pub reads_to_eol : Option (Str → Bool) → Str → Bool
reads_to_eol none key = false
reads_to_eol (some f) key = f key

unfoldable pub read_argument : Option (Str → Bool) → M Arg
read_argument read_to_eol = do
  _ ← advance_to match_not_eq_crlf true
  key_token ← advance_to match_eq_crlf false
  let key = to_string (init key_token)
  token ← advance_to (if reads_to_eol read_to_eol key then match_crlf else match_sp_crlf) false
  pure (record { key = key; value = to_string (init token); at_eol = ends_line (last? token) })

-- the test of the loop: done, or the rounds that are left
abbrev pub next : {L : Type 0} → Bool → L → M L → M L
next at_eol l more d = elim at_eol [ true ↦ ok (l, d) | false ↦ more d ]

-- `while (!atEOL) { const arg = readArgument(readToEOL); atEOL = arg.atEOL; … }`, where the body
-- may change a local variable. No test bounds the loop at the end of the input.
unfoldable pub arguments : {L : Type 0} → ℕ → Option (Str → Bool) → (Arg → L → M L) → L → M L
arguments zero read_to_eol body l = λ d. spin
arguments (suc fuel) read_to_eol body l = do
  arg ← read_argument read_to_eol
  l' ← body arg l
  next arg.at_eol l' (arguments fuel read_to_eol body l')

abbrev pub reading : Bytes → Decoder
reading bytes = record { encoded = bytes; s = at_start; file = no_fields }

reads :
    read_argument none (reading (codes "line=128 size=5\n"))
    ≡ ok (
      record { key = codes "line"; value = codes "128"; at_eol = false },
      reading (codes "size=5\n"),
    )
unfolding read_argument advance_to advance to_string Utf8.decode Utf8.run Utf8.step Utf8.lead
reads = refl
