-- ===== src/Yenc.antt =====
-- frontend/yenc.ts: the file record, the state of `decode`, the errors that it throws, the constants
-- and the character tests. `Reader`, `Header`, `Trailer` and `Data` hold the inner functions of
-- `decode`, `Decode` puts them together, and `Encode` is `encode`.
pub mod Libraries
pub mod Reader
pub mod Header
pub mod Trailer
pub mod Data
pub mod Decode
pub mod Encode
pub mod Fuel
pub mod Sound
pub mod RoundTrip
use usebin.Base.{
  ℕ, ◌%◌, ◌≡◌, refl, Bool, not, ◌&&◌, ◌||◌, Option, none, some, ◌==◌, ℤ, pos, negsuc, ◌+ℤ◌, Bytes,
  Str, codes,
}
use usebin.Js.Number.{Number, to_uint32}

-- `Partial<yFile>`: a field that is not set is `none`. `content` is the field `data`.
pub record YFile : Type 0 where
  pub name : Option Str
  pub size : Option Number
  pub part : Option Number
  pub total : Option Number
  pub line : Option Number
  pub begin : Option Number
  pub end : Option Number
  pub content : Option Bytes

abbrev pub no_fields : YFile
no_fields = record {
  name = none;
  size = none;
  part = none;
  total = none;
  line = none;
  begin = none;
  end = none;
  content = none;
}

abbrev pub line_max : ℕ
line_max = 128

pub data State : Type 0 where
  at_start at_begin at_escape at_data : State

-- the errors, with the values that their messages show
pub data YencError : Type 0 where
  reached_eof begin_marker_not_found missing_line missing_size missing_part_line : YencError
  begin_below_one : Str → YencError
  no_part_begin missing_end : YencError
  end_before_begin : Number → Number → YencError
  end_exceeds_size : Number → Option Number → YencError
  unexpected_eof : YencError
  trailer_size : Option Number → Number → YencError
  decoded_size : Number → ℕ → YencError
  trailer_total : Option Number → Number → YencError
  preceding_crc : Number → ℕ → YencError
  final_crc : Number → ℕ → YencError
  no_trailer_size : YencError
  invalid_encode_parameters : YencError

-- A call returns, throws, or has not ended within the fuel.
pub data Outcome {ℓ} (A : Type ℓ) : Type ℓ where
  ok : A → Outcome A
  throw : YencError → Outcome A
  spin : Outcome A

-- `byteAdd`
unfoldable pub byte_add : ℕ → ℤ → ℕ
byte_add byte offset = to_uint32 (pos byte +ℤ offset) % 256

-- -42 and -106
abbrev pub minus_42 : ℤ
minus_42 = negsuc 41

abbrev pub minus_106 : ℤ
minus_106 = negsuc 105

abbrev pub ybegin : Str
ybegin = codes "=ybegin "

abbrev pub ypart : Str
ypart = codes "=ypart "

abbrev pub yend : Str
yend = codes "=yend "

abbrev pub match_crlf : ℕ → Bool
match_crlf c = c == 0x0d || c == 0x0a

abbrev pub match_eq_crlf : ℕ → Bool
match_eq_crlf c = c == 0x3d || c == 0x0d || c == 0x0a

abbrev pub match_sp_crlf : ℕ → Bool
match_sp_crlf c = c == 0x20 || c == 0x0d || c == 0x0a

abbrev pub match_not_crlf : ℕ → Bool
match_not_crlf c = not (c == 0x0d) && not (c == 0x0a)

abbrev pub match_not_eq_crlf : ℕ → Bool
match_not_eq_crlf c = not (c == 0x3d) && not (c == 0x0d) && not (c == 0x0a)

abbrev pub match_critical_char : ℕ → Bool
match_critical_char c = c == 0x00 || c == 0x3d || c == 0x0d || c == 0x0a

wraps : (byte_add 250 (pos 42) ≡ 36) × (byte_add 10 minus_42 ≡ 224)
unfolding byte_add
wraps = (refl, refl)
