-- ===== src/Tests/YencRuns.antt =====
-- Runs of frontend/yenc.ts.
use usebin.Base.{ℕ, ◌≡◌, refl, none, some, [], ◌∷◌, Bytes, codes}
use usebin.Js.Number.{nat}
use usebin.Js.Parse.{trim_start, trim, is_space, digit_value, read_digits, read_number, parse_int}
use usebin.Js.Print.{digit, digits, nat_to_string, to_string, pad_start}
use usebin.Utf8
use usebin.Bytes
use usebin.Yenc.{YFile, no_fields, byte_add, ok, throw, spin, unexpected_eof}
use usebin.Yenc.Libraries.{plain}
use usebin.Yenc.Reader.{advance, advance_to, read_argument, arguments}
use usebin.Yenc.Header.{
  set_field, begin_argument, begin_line, part_argument, check_part, consume_part, skip_past,
  skip_line, at_keyword, after_begin, header_round, header_loop, read_header,
}
use usebin.Yenc.Trailer.{content_of, size_from_header, end_argument, consume_end}
use usebin.Yenc.Data.{
  write_plain, after_token, plain_round, escape_round, end_round, begin_round, state_round,
  data_round, data_loop, decode_data,
}
use usebin.Yenc.Decode.{decode_within, decode}
use usebin.Yenc.Encode.{
  is_invalid, with_defaults, header_text, write_header, write_body, crc_text, write_trailer, encode,
}

-- everything that a run of `encode` computes with
running_encode : ℕ
unfolding encode is_invalid with_defaults header_text write_header write_body crc_text write_trailer
    content_of byte_add to_string nat_to_string digits digit pad_start Bytes.from_string Utf8.encode
    Utf8.encode_scalars Utf8.encode_scalar Utf8.scalars
running_encode = 0

-- everything that a run of `decode` computes with
running_decode : ℕ
unfolding decode decode_within read_header header_loop header_round after_begin at_keyword skip_line
    skip_past consume_part check_part part_argument begin_line begin_argument set_field consume_end
    end_argument content_of size_from_header decode_data data_loop data_round state_round
    begin_round end_round escape_round plain_round after_token write_plain read_argument arguments
    advance_to advance byte_add trim trim_start is_space parse_int read_number read_digits
    digit_value Bytes.has_prefix Bytes.to_string Utf8.decode Utf8.run Utf8.step Utf8.continue
    Utf8.lead Utf8.units
running_decode = 0

abbrev pub text_file : YFile
text_file = record no_fields {
  name = some (codes "a b.rar");
  size = some (nat 5);
  content = some (0 ∷ 19 ∷ 1 ∷ 2 ∷ 3 ∷ []);
}

abbrev pub text_encoded : Bytes
text_encoded = codes "=ybegin line=128 size=5 name=a b.rar\n*=}+,-\n=yend size=5 crc32=0000beef\n"

encode-text_file :
    encode plain text_file
    ≡ ok (
      text_encoded,
      record text_file { line = some (nat 128); begin = some (nat 0); end = some (nat 5) },
    )
unfolding running_encode
encode-text_file = refl

pub decode-text_file :
    decode plain none text_encoded ≡ ok (record text_file { line = some (nat 128) })
unfolding running_decode
decode-text_file = refl

-- the last byte of the data is escaped
decode_escape_last :
    decode plain none (codes "=ybegin line=128 size=2 name=a\n*=}\n=yend size=2 crc32=0000beef\n")
    ≡ throw unexpected_eof
unfolding running_decode
decode_escape_last = refl

-- a file with no data
decode_empty :
    decode plain none (codes "=ybegin line=128 size=0 name=a\n=yend size=0 crc32=0000beef\n")
    ≡ throw unexpected_eof
unfolding running_decode
decode_empty = refl

-- a header line that is cut off
decode_truncated : decode plain none (codes "=ybegin line=128 size=5 name=abc") ≡ spin
unfolding running_decode
decode_truncated = refl
