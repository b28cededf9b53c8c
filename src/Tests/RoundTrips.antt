-- ===== src/Tests/RoundTrips.antt =====
-- The round trips of frontend/yenc.ts at concrete files.
use usebin.Base.{◌≡◌, refl, none, [], ◌∷◌, arith, Bytes, Str, codes, All}
use usebin.Js.Number.{nat}
use usebin.Js.Parse.{trim, trim_start, is_space}
use usebin.Utf8.{scalars, all_units, units}
use usebin.Yenc.{YencError, unexpected_eof, throw, ok, byte_add}
use usebin.Yenc.Libraries.{plain}
use usebin.Yenc.Decode.{decode}
use usebin.Yenc.Encode.{encode, write_body}
use usebin.Yenc.Encode.Lines.{FitLines, write_body-FitLines, IsClean, write_body-IsClean}
use usebin.Yenc.RoundTrip.Headers.{IsName}
use usebin.Yenc.RoundTrip.Encodes.{part_file, whole_file, whole_range}
use usebin.Yenc.RoundTrip.Whole.{decode-encode_part, decode-encode_unsplit}
use usebin.Yenc.RoundTrip.Failures.{decode-encode_part_lost, decode-encode_unsplit_empty}

abbrev pub rar_name : Str
rar_name = codes "a b.rar"

pub rar_name-IsName : IsName rar_name
unfolding scalars all_units units trim trim_start is_space
rar_name-IsName = record {
  not_empty = λ e. cc;
  units_fit = ground arith;
  well_formed = refl;
  no_mark = λ e. omega arith;
  no_cr = ground arith;
  no_lf = ground arith;
  trimmed = refl;
}

-- one byte in the middle that is escaped
abbrev pub three_bytes : Bytes
three_bytes = 0 ∷ 19 ∷ 1 ∷ []

decode-encode_part_example :
    (bytes : Bytes) × (encode plain (part_file 2 3 128 10 3 6 rar_name three_bytes)
      ≡ ok (bytes, part_file 2 3 128 10 3 6 rar_name three_bytes))
    × (decode plain none bytes ≡ ok (part_file 2 3 128 10 3 6 rar_name three_bytes))
unfolding byte_add
decode-encode_part_example =
    decode-encode_part plain 2 3 128 10 3 6 rar_name three_bytes rar_name-IsName (omega arith)
      (ground arith) refl refl (omega arith)

decode-encode_unsplit_example :
    (bytes : Bytes) × (encode plain (whole_file 128 3 rar_name three_bytes)
      ≡ ok (bytes, whole_range 128 3 rar_name three_bytes))
    × (decode plain none bytes ≡ ok (whole_file 128 3 rar_name three_bytes))
unfolding byte_add
decode-encode_unsplit_example =
    decode-encode_unsplit plain 128 0 rar_name (19 ∷ 1 ∷ []) rar_name-IsName (omega arith)
      (ground arith) refl

write_body-FitLines_example :
    FitLines 3 0 (plain.finish (write_body plain (nat 3) three_bytes 0 plain.new_writer))
write_body-FitLines_example = write_body-FitLines plain 3 three_bytes (omega arith)

write_body-IsClean_example :
    All IsClean (plain.finish (write_body plain (nat 3) three_bytes 0 plain.new_writer))
write_body-IsClean_example = write_body-IsClean plain (nat 3) three_bytes

-- 19 is written escaped
abbrev pub two_bytes : Bytes
two_bytes = 0 ∷ 19 ∷ []

decode-encode_part_lost_example :
    (bytes : Bytes) × (encode plain (part_file 2 3 128 10 3 5 rar_name two_bytes)
      ≡ ok (bytes, part_file 2 3 128 10 3 5 rar_name two_bytes))
    × (e : YencError) × (decode plain none bytes ≡ throw e)
unfolding byte_add
decode-encode_part_lost_example =
    decode-encode_part_lost plain 2 3 128 10 3 5 rar_name two_bytes (λ e. cc) rar_name-IsName
      (omega arith) (ground arith) refl refl (omega arith)

decode-encode_unsplit_empty_example :
    (bytes : Bytes) × (encode plain (whole_file 128 0 rar_name [])
      ≡ ok (bytes, whole_range 128 0 rar_name []))
    × (decode plain none bytes ≡ throw unexpected_eof)
decode-encode_unsplit_empty_example =
    decode-encode_unsplit_empty plain 128 rar_name rar_name-IsName (omega arith)
