-- ===== src/Yenc/RoundTrip/Whole.antt =====
-- `decode` after `encode`, for a part of a file and for a whole file.
use usebin.Base.{
  ℕ, ◌+◌, ◌≤◌, ◌<◌, ◌≡◌, refl, ap, ◌∙◌, inr, false, none, some, [], ◌∷◌, ◌++◌, arith, Bytes, Str,
  codes, All, length, append_assoc, ◌&&◌,
}
use usebin.Bytes.{from_string}
use usebin.Js.Number.{nat, minus, opt_eq, to_number}
use usebin.Yenc.{YFile, no_fields, ok}
use usebin.Yenc.Libraries.{Libraries}
use usebin.Yenc.Trailer.{content_of, size_from_header}
use usebin.Yenc.Decode.{decode}
use usebin.Yenc.Encode.{
  lacks_name, is_invalid, is_falsy, with_defaults, header_text, write_header, write_body,
  write_trailer, encode,
}
use usebin.Yenc.Encode.Body.{body_text}
use usebin.Yenc.Encode.Written.{finish-write_body}
use usebin.Yenc.RoundTrip.Body.{EndsPlain}
use usebin.Yenc.RoundTrip.Headers.{IsName, with_common}
use usebin.Yenc.RoundTrip.Files.{trailer}
use usebin.Yenc.RoundTrip.Decodes.{decode-header}
use usebin.Yenc.RoundTrip.Openings.{
  read_header-multi, multi_file, read_header-single, body_text-BeginsData,
}
use usebin.Yenc.RoundTrip.Encodes.{
  part_file, header_text-arguments, whole_file, whole_range, header_text-whole_arguments,
}
use usebin.Yenc.RoundTrip.Sums.{sum_key, sum_key-HasSumKey, first_sum, finish-write_trailer}

pub lacks_name-IsName : (name : Str) → IsName name → lacks_name (some name) ≡ false
lacks_name-IsName [] h = ground (arith, h.not_empty refl)
lacks_name-IsName (c ∷ name) h = refl

pub is_falsy-nat : (line : ℕ) → 0 < line → is_falsy (some (nat line)) ≡ false
is_falsy-nat line h = ground arith

minus-length : (begin end k : ℕ) → end ≡ begin + k → minus (nat end) (nat begin) ≡ nat k
minus-length begin end k e = ground arith

pub not-both :
    (a b : ℕ)
    → first_sum (record no_fields { part = some (nat a); total = some (nat b) })
        && opt_eq (some (nat a)) (some (nat b))
      ≡ false
not-both a b = ground arith

module _ (lib : Libraries) where
  open lib use {new_writer, finish, finish-new_writer, finish-write}

  -- the text that `encode` writes for a file with its defaults set
  abbrev pub text_of : YFile → Bytes
  text_of file =
      from_string (header_text file)
      ++ (body_text (to_number file.line) (content_of file) 0
          ++ trailer lib (content_of file) (sum_key (first_sum file) (opt_eq file.part file.total)))

  pub encode-ok :
      (file full : YFile)
      → is_invalid file ≡ false
      → with_defaults file ≡ full
      → first_sum full && opt_eq full.part full.total ≡ false
      → encode lib file ≡ ok (text_of full, full)
  unfolding encode write_header
  encode-ok file full e f h = rw (e, f) (ap (λ x. ok (x, full)) bytes)
    where
      bytes :
          finish (
            write_trailer lib full (
              write_body lib
                (to_number full.line)
                (content_of full)
                0
                (write_header lib full new_writer)))
          ≡ text_of full
      bytes =
          finish-write_trailer lib full _ h
          ∙ ap
              (◌++ trailer lib (content_of full)
                (sum_key (first_sum full) (opt_eq full.part full.total)))
              (finish-write_body lib (to_number full.line) (content_of full) 0 _
                ∙ ap (◌++ body_text (to_number full.line) (content_of full) 0) (
                    finish-write new_writer _
                    ∙ ap (◌++ from_string (header_text full)) finish-new_writer))
          ∙ append_assoc (from_string (header_text full)) _ _

  module _ (part total line size begin end : ℕ) (name : Str) (xs : Bytes) where
    abbrev this : YFile
    this = part_file part total line size begin end name xs

    -- A part whose fields are numbers, with a line length above 0, a range that has the length of
    -- the data and lies in the file, a name that the header can carry, and data of which the last
    -- byte, if there is one, is not one that is escaped: `encode` returns bytes, and `decode` without
    -- a seed returns the part from them, with every field as it was.
    pub decode-encode_part :
        IsName name
        → 0 < line
        → All (λ x. x < 256) xs
        → EndsPlain xs
        → end ≡ begin + length xs
        → end ≤ size
        → (bytes : Bytes) × (encode lib this ≡ ok (bytes, this)) × (decode lib none bytes ≡ ok this)
    unfolding is_invalid with_defaults content_of size_from_header
    decode-encode_part h l b p e s =
        let key = sum_key (first_sum this) (opt_eq this.part this.total) in
        let rest = body_text (nat line) xs 0 ++ trailer lib xs key in
        (
          text_of this,
          encode-ok this this (rw (lacks_name-IsName name h) refl) (rw (is_falsy-nat line l) refl)
              (not-both part total),
          ap (decode lib none) (header_text-arguments part total line size begin end name xs h rest)
              ∙ decode-header lib _ (multi_file line size part total begin end name) (nat line) xs
                  key
                  (λ n.
                    read_header-multi line size part total begin end name lib n h rest (omega arith)
                      s)
                  b p (sum_key-HasSumKey (first_sum this) (opt_eq this.part this.total))
                  (ap some (minus-length begin end (length xs) e)),
        )

  module _ (line x : ℕ) (name : Str) (xs : Bytes) where
    abbrev whole : YFile
    whole = whole_file line (length (x ∷ xs)) name (x ∷ xs)

    -- A file that is not split, with a line length above 2, a name that the header can carry, and
    -- data, not empty, of which the last byte is not one that is escaped: `encode` returns bytes, and
    -- `decode` without a seed returns the file from them, with the fields it had before `encode` set its range.
    pub decode-encode_unsplit :
        IsName name
        → 2 < line
        → All (λ x. x < 256) (x ∷ xs)
        → EndsPlain (x ∷ xs)
        → (bytes : Bytes) × (encode lib whole
            ≡ ok (bytes, whole_range line (length (x ∷ xs)) name (x ∷ xs)))
          × (decode lib none bytes ≡ ok whole)
    unfolding is_invalid with_defaults content_of size_from_header
    decode-encode_unsplit h l b p =
        let size = length (x ∷ xs) in
        let tail = trailer lib (x ∷ xs) (some (codes "crc32")) in
        let rest = body_text (nat line) (x ∷ xs) 0 ++ tail in
        (
          text_of (whole_range line size name (x ∷ xs)),
          encode-ok whole (whole_range line size name (x ∷ xs)) (rw (lacks_name-IsName name h) refl)
              (rw (is_falsy-nat line (omega arith)) refl) refl,
          ap (decode lib none) (header_text-whole_arguments line size name (x ∷ xs) h rest)
              ∙ decode-header lib _ (with_common line size name no_fields) (nat line) (x ∷ xs)
                  (some (codes "crc32"))
                  (λ n.
                    read_header-single line size name lib n h rest
                      (body_text-BeginsData line x xs tail l))
                  b p (inr refl) refl,
        )
