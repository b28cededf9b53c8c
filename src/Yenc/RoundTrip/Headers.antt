-- ===== src/Yenc/RoundTrip/Headers.antt =====
-- `readHeader` on the lines that `writeHeader` writes.
use usebin.Base.{
  ℕ, suc, ◌<◌, ◌≡◌, ◌≢◌, refl, ap, ◌∙◌, false, none, some, [], ◌∷◌, arith, Bytes, Str, codes, All,
}
use usebin.Bytes.{from_string, to_string}
use usebin.Bytes.RoundTrip.{to_string-from_string_well_formed}
use usebin.Utf8.{scalars, all_units}
use usebin.Utf8.RoundTrip.{NoBom, encode-ne}
use usebin.Js.Number.{nat}
use usebin.Js.Parse.{parse_int, trim}
use usebin.Js.Print
use usebin.Js.Print.RoundTrip.{parse_int-to_string}
use usebin.Yenc.{YFile, at_start, ok, match_crlf}
use usebin.Yenc.Reader.{Arg, arguments}
use usebin.Yenc.Reader.Cuts.{Misses}
use usebin.Yenc.Header.{set_field, begin_argument, is_name}
use usebin.Yenc.RoundTrip.Steps.{at_text}
use usebin.Yenc.RoundTrip.Fields.{
  argument, IsKey, plain_key-IsKey, to_string_ascii, arguments-argument, digits-Misses,
  digits-ascii, decimal-IsDigit,
}

-- a number as `encode` prints it
abbrev pub decimal : ℕ → Str
decimal n = Print.to_string (nat n)

-- the argument that is read from it
abbrev pub number_arg : Str → ℕ → Arg
number_arg key n = record { key = key; value = to_string (decimal n); at_eol = false }

pub parse-decimal : (n : ℕ) → parse_int none (to_string (decimal n)) ≡ nat n
parse-decimal n =
    ap (parse_int none) (to_string_ascii (decimal n) (digits-ascii (decimal n) (decimal-IsDigit n)))
    ∙ parse_int-to_string n

module _ (v : ℕ) (file : YFile) where
  set_field-line :
      set_field (number_arg (codes "line") v) file ≡ record file { line = some (nat v) }
  unfolding set_field
  set_field-line = ap (λ x. record file { line = some x }) (parse-decimal v)

  set_field-size :
      set_field (number_arg (codes "size") v) file ≡ record file { size = some (nat v) }
  unfolding set_field
  set_field-size = ap (λ x. record file { size = some x }) (parse-decimal v)

  pub set_field-part :
      set_field (number_arg (codes "part") v) file ≡ record file { part = some (nat v) }
  unfolding set_field
  set_field-part = ap (λ x. record file { part = some x }) (parse-decimal v)

  pub set_field-total :
      set_field (number_arg (codes "total") v) file ≡ record file { total = some (nat v) }
  unfolding set_field
  set_field-total = ap (λ x. record file { total = some x }) (parse-decimal v)

-- A number in the `=ybegin` line, whose key is not `name`.
pub begin_number :
    (key : Str) (n v : ℕ) (file : YFile) (rest : Bytes)
    → IsKey key
    → is_name key ≡ false
    → arguments
        (suc n)
        (some is_name)
        begin_argument
        tt
        (at_text file at_start (argument key (decimal v) 0x20 rest))
      ≡ arguments n
          (some is_name)
          begin_argument
          tt
          (at_text (set_field (number_arg key v) file) at_start rest)
unfolding begin_argument
begin_number key n v file rest k h =
    arguments-argument (some is_name) key (decimal v) rest 0x20 n begin_argument tt file at_start k
      (rw h (digits-Misses (decimal v) (decimal-IsDigit v))) (rw h refl)

-- A name that the `=ybegin` line carries: a well-formed string of UTF-16 code units, not empty, that
-- has no line break, no white space around it and no byte order mark before it.
pub record IsName (name : Str) : Type 0 where
  pub not_empty : name ≢ []
  pub units_fit : All (λ u. u < 0x10000) name
  pub well_formed : all_units (scalars name) ≡ name
  pub no_mark : NoBom (scalars name)
  pub no_cr : All (λ c. c ≢ 13) name
  pub no_lf : All (λ c. c ≢ 10) name
  pub trimmed : trim name ≡ name

pub name_reads_back : (name : Str) → IsName name → to_string (from_string name) ≡ name
name_reads_back name h = to_string-from_string_well_formed name h.units_fit h.no_mark h.well_formed

both-Misses : (bs : Bytes) → All (λ c. c ≢ 13) bs → All (λ c. c ≢ 10) bs → Misses match_crlf bs
both-Misses [] a b = tt
both-Misses (c ∷ bs) (x, a) (y, b) = (ground arith, both-Misses bs a b)

name-Misses : (name : Str) → IsName name → Misses match_crlf (from_string name)
unfolding from_string
name-Misses name h =
    both-Misses (from_string name) (encode-ne 13 name (omega arith) h.no_cr)
      (encode-ne 10 name (omega arith) h.no_lf)

-- The name, which ends the line.
begin_name :
    (n : ℕ) (name : Str) (file : YFile) (rest : Bytes)
    → IsName name
    → arguments
        (suc n)
        (some is_name)
        begin_argument
        tt
        (at_text file at_start (argument (codes "name") (from_string name) 0x0a rest))
      ≡ ok (tt, at_text (record file { name = some name }) at_start rest)
unfolding begin_argument set_field
begin_name n name file rest h =
    arguments-argument (some is_name) (codes "name") (from_string name) rest 0x0a n begin_argument
      tt file at_start (plain_key-IsKey _ _ refl) (name-Misses name h) refl
    ∙ ap (λ x. ok (tt, at_text (record file { name = some x }) at_start rest))
        (ap trim (name_reads_back name h) ∙ h.trimmed)

module _ (line size : ℕ) (name : Str) where
  -- the arguments that both kinds of `=ybegin` line end with
  abbrev pub common_arguments : Bytes → Bytes
  common_arguments rest = argument (codes "line") (decimal line) 0x20 (
      argument (codes "size") (decimal size) 0x20
        (argument (codes "name") (from_string name) 0x0a rest))

  abbrev pub with_common : YFile → YFile
  with_common file = record file {
    line = some (nat line);
    size = some (nat size);
    name = some name;
  }

module _ (n line size : ℕ) (name : Str) (rest : Bytes) (h : IsName name) where
  pub begin_common :
      (file : YFile)
      → arguments
          (suc (suc (suc n)))
          (some is_name)
          begin_argument
          tt
          (at_text file at_start (common_arguments line size name rest))
        ≡ ok (tt, at_text (with_common line size name file) at_start rest)
  begin_common file =
      begin_number (codes "line") (suc (suc n)) line file _ (plain_key-IsKey _ _ refl) refl
      ∙ rw (set_field-line line file) (
          begin_number (codes "size") (suc n) size (record file { line = some (nat line) }) _
            (plain_key-IsKey _ _ refl) refl
          ∙ rw (set_field-size size (record file { line = some (nat line) })) (
              begin_name n name (record file { line = some (nat line); size = some (nat size) })
                rest h))
