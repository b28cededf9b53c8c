-- ===== src/Yenc/RoundTrip/Encodes.antt =====
-- The bytes that `encode` writes, as the arguments that `decode` reads.
use usebin.Base.{
  ℕ, ◌+◌, ◌<◌, ◌≡◌, refl, ap, ◌∙◌, some, [], ◌∷◌, ◌++◌, arith, Bytes, Str, codes, All, All-append,
  append_assoc,
}
use usebin.Bytes.{from_string}
use usebin.Utf8.{scalars, all_units, units}
use usebin.Utf8.RoundTrip.{NotLowHead, encode-append, encode_ascii}
use usebin.Js.Number.{nat}
use usebin.Yenc.{YFile, no_fields, ybegin, ypart}
use usebin.Yenc.Encode.{succ, header_text}
use usebin.Yenc.RoundTrip.Fields.{digits-ascii, decimal-IsDigit}
use usebin.Yenc.RoundTrip.Headers.{decimal, IsName, common_arguments}
use usebin.Yenc.RoundTrip.Begins.{multi_arguments}
use usebin.Yenc.RoundTrip.Parts.{part_arguments}

abbrev pub IsAscii : Str → Type 0
IsAscii = All (λ c. c < 0x80)

pub decimal-IsAscii : (n : ℕ) → IsAscii (decimal n)
decimal-IsAscii n = digits-ascii (decimal n) (decimal-IsDigit n)

pub IsAscii-append : (a b : Str) → IsAscii a → IsAscii b → IsAscii (a ++ b)
IsAscii-append = All-append (λ c. c < 0x80)

-- No well-formed string begins with a low surrogate.
name-NotLowHead : (name : Str) → all_units (scalars name) ≡ name → NotLowHead name
unfolding scalars all_units units
name-NotLowHead [] e = tt
name-NotLowHead (c ∷ []) e = ground arith
name-NotLowHead (c ∷ d ∷ s) e = ground arith

ascii-NotLowHead : (s : Str) → IsAscii s → NotLowHead s
ascii-NotLowHead [] h = tt
ascii-NotLowHead (c ∷ s) h = ground arith

NotLowHead-append : (s t : Str) → NotLowHead s → IsAscii t → NotLowHead (s ++ t)
NotLowHead-append [] t h a = ascii-NotLowHead t a
NotLowHead-append (c ∷ s) t h a = h

-- A name between ASCII texts.
encode_around :
    (a name b : Str)
    → IsAscii a
    → NotLowHead name
    → IsAscii b
    → from_string (a ++ (name ++ b)) ≡ a ++ (from_string name ++ b)
unfolding from_string
encode_around a name b p n q =
    encode-append a (name ++ b) (NotLowHead-append name b n q)
    ∙ rw (encode_ascii a p, encode-append name b (ascii-NotLowHead b q), encode_ascii b q) refl

succ-nat : (n : ℕ) → succ (nat n) ≡ nat (n + 1)
succ-nat n = ground arith

labelled-IsAscii :
    (label : Str) (n : ℕ) (rest : Str)
    → IsAscii label
    → IsAscii rest
    → IsAscii (label ++ (decimal n ++ rest))
labelled-IsAscii label n rest p q =
    IsAscii-append label (decimal n ++ rest) p
      (IsAscii-append (decimal n) rest (decimal-IsAscii n) q)

module _ (part total line size begin end : ℕ) (name : Str) (xs : Bytes) where
  -- a part, as `encode` completes it
  abbrev pub part_file : YFile
  part_file = record {
    name = some name;
    size = some (nat size);
    part = some (nat part);
    total = some (nat total);
    line = some (nat line);
    begin = some (nat begin);
    end = some (nat end);
    content = some xs;
  }

  abbrev before_name : Str
  before_name =
      codes "=ybegin part="
      ++ (decimal part
          ++ (codes " total="
              ++ (decimal total
                  ++ (codes " line="
                      ++ (decimal line ++ (codes " size=" ++ (decimal size ++ codes " name=")))))))

  abbrev after_name : Str
  after_name =
      codes "\n=ypart begin="
      ++ (decimal (begin + 1) ++ (codes " end=" ++ (decimal end ++ codes "\n")))

  before_name-IsAscii : IsAscii before_name
  before_name-IsAscii = labelled-IsAscii (codes "=ybegin part=") part _ (ground arith) (
      labelled-IsAscii (codes " total=") total _ (ground arith) (
        labelled-IsAscii (codes " line=") line _ (ground arith)
          (labelled-IsAscii (codes " size=") size (codes " name=") (ground arith) (ground arith))))

  after_name-IsAscii : IsAscii after_name
  after_name-IsAscii =
      labelled-IsAscii (codes "\n=ypart begin=") (begin + 1) _ (ground arith)
        (labelled-IsAscii (codes " end=") end (codes "\n") (ground arith) (ground arith))

  header_text-part : header_text part_file ≡ before_name ++ (name ++ after_name)
  unfolding header_text
  header_text-part = rw (succ-nat begin) (simp append_assoc)

  module _ (h : IsName name) (rest : Bytes) where
    -- the header lines, as `decode` takes them apart
    pub header_text-arguments :
        from_string (header_text part_file) ++ rest
        ≡ ybegin
          ++ multi_arguments line size name part total (ypart ++ part_arguments begin end rest)
    header_text-arguments =
        ap (λ s. from_string s ++ rest) header_text-part
        ∙ ap (◌++ rest) (
            encode_around before_name name after_name before_name-IsAscii
              (name-NotLowHead name h.well_formed) after_name-IsAscii)
        ∙ simp append_assoc

module _ (line size : ℕ) (name : Str) (xs : Bytes) where
  -- a whole file
  abbrev pub whole_file : YFile
  whole_file = record no_fields {
    name = some name;
    size = some (nat size);
    line = some (nat line);
    content = some xs;
  }

  -- with the fields that `encode` sets
  abbrev pub whole_range : YFile
  whole_range = record whole_file { begin = some (nat 0); end = some (nat size) }

  abbrev before_whole : Str
  before_whole =
      codes "=ybegin line="
      ++ (decimal line ++ (codes " size=" ++ (decimal size ++ codes " name=")))

  header_text-whole : header_text whole_range ≡ before_whole ++ (name ++ codes "\n")
  unfolding header_text
  header_text-whole = simp append_assoc

  pub header_text-whole_arguments :
      (h : IsName name) (rest : Bytes)
      → from_string (header_text whole_range) ++ rest
        ≡ ybegin ++ common_arguments line size name rest
  header_text-whole_arguments h rest =
      ap (λ s. from_string s ++ rest) header_text-whole
      ∙ ap (◌++ rest) (
          encode_around before_whole name (codes "\n")
            (labelled-IsAscii (codes "=ybegin line=") line _ (ground arith) (
              labelled-IsAscii (codes " size=") size (codes " name=") (ground arith)
                (ground arith)))
            (name-NotLowHead name h.well_formed) (ground arith))
      ∙ simp append_assoc
