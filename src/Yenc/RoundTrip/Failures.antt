-- ===== src/Yenc/RoundTrip/Failures.antt =====
-- Files that `encode` writes and `decode` does not read.
use usebin.Base.{
  ℕ, Option, true, ◌≢◌, ◌+◌, ◌≤◌, ◌<◌, ◌≡◌, refl, ap, ◌∙◌, none, some, [], ◌∷◌, ◌++◌, arith, Bytes,
  Str, codes, All, length,
}
use usebin.Js.Number.{nat, opt_eq}
use usebin.Yenc.{YencError, throw, unexpected_eof, YFile, ok}
use usebin.Yenc.Libraries.{Libraries}
use usebin.Yenc.Trailer.{content_of}
use usebin.Yenc.Decode.{decode}
use usebin.Yenc.Encode.{is_invalid, with_defaults, encode}
use usebin.Yenc.Encode.Body.{body_text}
use usebin.Yenc.RoundTrip.Body.{EndsWith}
use usebin.Yenc.RoundTrip.Headers.{IsName}
use usebin.Yenc.RoundTrip.Files.{trailer}
use usebin.Yenc.RoundTrip.Decodes.{decode-header_lost}
use usebin.Yenc.RoundTrip.Empty.{decode_empty}
use usebin.Yenc.RoundTrip.Lost.{LostOn, data_loop-lost}
use usebin.Yenc.RoundTrip.Trailers.{HasSumKey}
use usebin.Yenc.RoundTrip.Openings.{read_header-multi, multi_file}
use usebin.Yenc.RoundTrip.Encodes.{
  part_file, header_text-arguments, whole_file, whole_range, header_text-whole_arguments,
}
use usebin.Yenc.RoundTrip.Sums.{sum_key, sum_key-HasSumKey, first_sum}
use usebin.Yenc.RoundTrip.Whole.{lacks_name-IsName, is_falsy-nat, not-both, text_of, encode-ok}

module _ (lib : Libraries) where
  lost_body :
      (file : YFile) (line : ℕ) (xs : Bytes) (key : Option Str)
      → xs ≢ []
      → All (λ c. c < 256) xs
      → EndsWith true xs
      → HasSumKey key
      → LostOn lib file (body_text (nat line) xs 0 ++ trailer lib xs key)
  lost_body file line [] key n b p k = absurd (n refl)
  lost_body file line (x ∷ ys) key n b p k = data_loop-lost lib file (nat line) x ys key b p k

  module _ (part total line size begin end : ℕ) (name : Str) (xs : Bytes) where
    abbrev this : YFile
    this = part_file part total line size begin end name xs

    -- A part whose fields are numbers, with a line length above 0, a range that has the length of
    -- the data and lies in the file, a name that the header can carry, and data, not empty, of which
    -- the last byte is one that is escaped: `encode` returns bytes on which `decode` without
    -- a seed throws.
    pub decode-encode_part_lost :
        xs ≢ []
        → IsName name
        → 0 < line
        → All (λ c. c < 256) xs
        → EndsWith true xs
        → end ≡ begin + length xs
        → end ≤ size
        → (bytes : Bytes) × (encode lib this ≡ ok (bytes, this))
          × (e : YencError) × (decode lib none bytes ≡ throw e)
    unfolding is_invalid with_defaults content_of
    decode-encode_part_lost q h l b p e s =
        let key = sum_key (first_sum this) (opt_eq this.part this.total) in
        let rest = body_text (nat line) xs 0 ++ trailer lib xs key in
        let file = multi_file line size part total begin end name in
        let (err, d) =
          decode-header_lost lib _ file rest
            (λ n.
              read_header-multi line size part total begin end name lib n h rest (omega arith) s)
            (lost_body file line xs key q b p
              (sum_key-HasSumKey _ (opt_eq this.part this.total))) in
        (
          text_of lib this,
          encode-ok lib this this (rw (lacks_name-IsName name h) refl)
              (rw (is_falsy-nat line l) refl) (not-both part total),
          err,
          ap (decode lib none) (header_text-arguments part total line size begin end name xs h rest)
              ∙ d,
        )

  -- A file that is not split and has no data, with a line length above 0 and a name that the header
  -- can carry: `encode` returns bytes on which `decode` without a seed throws.
  pub decode-encode_unsplit_empty :
      (line : ℕ) (name : Str)
      → IsName name
      → 0 < line
      → (bytes : Bytes) × (encode lib (whole_file line 0 name [])
          ≡ ok (bytes, whole_range line 0 name []))
        × (decode lib none bytes ≡ throw unexpected_eof)
  unfolding is_invalid with_defaults content_of body_text
  decode-encode_unsplit_empty line name h l = (
    text_of lib (whole_range line 0 name []),
    encode-ok lib (whole_file line 0 name []) (whole_range line 0 name [])
        (rw (lacks_name-IsName name h) refl) (rw (is_falsy-nat line l) refl) refl,
    ap (decode lib none)
          (header_text-whole_arguments line 0 name [] h (trailer lib [] (some (codes "crc32"))))
        ∙ decode_empty lib line name h,
  )
