-- ===== src/Yenc/RoundTrip/Sums.antt =====
-- The bytes of `writeTrailer`.
use usebin.Base.{
  ◌≡◌, refl, ap, ◌∙◌, inl, inr, Bool, true, false, Option, none, some, ◌++◌, if◌then◌else◌, arith,
  Bytes, Str, codes, length, ◌&&◌, append_assoc,
}
use usebin.Bytes.{from_string}
use usebin.Utf8.RoundTrip.{encode_ascii}
use usebin.Js.Number.{less, opt_eq, to_number}
use usebin.Yenc.{YFile}
use usebin.Yenc.Libraries.{Libraries}
use usebin.Yenc.Trailer.{content_of, is_set, real_crc}
use usebin.Yenc.Encode.{crc_text, write_trailer}
use usebin.Yenc.RoundTrip.Fields.{digits-ascii}
use usebin.Yenc.RoundTrip.Headers.{decimal}
use usebin.Yenc.RoundTrip.Trailers.{hex_sum, hex_sum-IsDigit, HasSumKey}
use usebin.Yenc.RoundTrip.Files.{trailer}
use usebin.Yenc.RoundTrip.Encodes.{IsAscii, IsAscii-append, decimal-IsAscii}

-- the key of the checksum: `pcrc32` before the last part, `crc32` for it and where there are no parts
abbrev pub sum_key : Bool → Bool → Option Str
sum_key true last = some (codes "pcrc32")
sum_key false true = some (codes "crc32")
sum_key false false = none

pub sum_key-HasSumKey : (u v : Bool) → HasSumKey (sum_key u v)
sum_key-HasSumKey true v = inl refl
sum_key-HasSumKey false true = inr refl
sum_key-HasSumKey false false = tt

-- `file.total != null && file.part < file.total`
abbrev pub first_sum : YFile → Bool
first_sum file = is_set file.total && less (to_number file.part) (to_number file.total)

module _ (lib : Libraries) where
  open lib use {Writer, write, write_byte, finish, finish-write, finish-write_byte}

  finish-write_ascii :
      (w : Writer) (s : Str) → IsAscii s → finish (write w (from_string s)) ≡ finish w ++ s
  unfolding from_string
  finish-write_ascii w s h = finish-write w _ ∙ ap (finish w ++◌) (encode_ascii s h)

  module _ (xs : Bytes) (w : Writer) where
    abbrev sum : Str
    sum = hex_sum (real_crc lib none xs)

    sum-IsAscii : IsAscii sum
    sum-IsAscii = digits-ascii sum (hex_sum-IsDigit (real_crc lib none xs))

    abbrev sized : Writer
    sized = write w (from_string (codes "=yend size=" ++ decimal (length xs)))

    abbrev summed : Bool → Str → Writer → Writer
    summed b label w' = if b then write w' (from_string (label ++ sum)) else w'

    abbrev ended : Bool → Bool → Writer
    ended u v = write_byte (summed v (codes " crc32=") (summed u (codes " pcrc32=") sized)) 0x0a

    finish-sized : finish sized ≡ finish w ++ (codes "=yend size=" ++ decimal (length xs))
    finish-sized =
        finish-write_ascii w _
          (IsAscii-append (codes "=yend size=") _ (ground arith) (decimal-IsAscii (length xs)))

    finish-ended :
        (u v : Bool)
        → u && v ≡ false
        → finish (ended u v) ≡ finish w ++ trailer lib xs (sum_key u v)
    finish-ended true true e = cc
    finish-ended true false e =
        finish-write_byte _ 10 (omega arith)
        ∙ rw
            (
              finish-write_ascii sized (codes " pcrc32=" ++ sum)
                  (IsAscii-append (codes " pcrc32=") sum (ground arith) sum-IsAscii),
              finish-sized,
            )
            (simp append_assoc)
    finish-ended false true e =
        finish-write_byte _ 10 (omega arith)
        ∙ rw
            (
              finish-write_ascii sized (codes " crc32=" ++ sum)
                  (IsAscii-append (codes " crc32=") sum (ground arith) sum-IsAscii),
              finish-sized,
            )
            (simp append_assoc)
    finish-ended false false e =
        finish-write_byte _ 10 (omega arith) ∙ rw finish-sized (simp append_assoc)

  -- `writeTrailer` writes the trailer of the data.
  pub finish-write_trailer :
      (file : YFile) (w : Writer)
      → first_sum file && opt_eq file.part file.total ≡ false
      → finish (write_trailer lib file w)
        ≡ finish w
          ++ trailer lib (content_of file) (sum_key (first_sum file) (opt_eq file.part file.total))
  unfolding write_trailer crc_text
  finish-write_trailer file w h =
      finish-ended (content_of file) w (first_sum file) (opt_eq file.part file.total) h
