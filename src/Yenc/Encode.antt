-- ===== src/Yenc/Encode.antt =====
-- `encode`: the check of the fields, the header lines, the encoded lines and the trailer line.
pub mod Body
pub mod Written
pub mod Lines
pub mod Refuses
pub mod Clean
use usebin.Base.{
  ℕ, ◌+◌, Bool, true, false, not, ◌&&◌, ◌||◌, Option, none, some, [], ◌∷◌, ◌++◌, ltb, if◌then◌else◌,
  pos, ◌+ℤ◌, ltb_ℤ, eqb_ℤ, Bytes, Str, codes, length,
}
use usebin.Bytes.{from_string}
use usebin.Js.Number.{Number, nan, num, nat, less, opt_eq, to_number, to_uint32}
use usebin.Js.Print.{nat_to_string, to_string, opt_to_string, pad_start}
use usebin.Yenc.{
  YFile, line_max, Outcome, ok, throw, invalid_encode_parameters, byte_add, match_critical_char,
}
use usebin.Yenc.Libraries.{Libraries}
use usebin.Yenc.Trailer.{is_set, content_of}

-- `!file.name`
abbrev pub lacks_name : Option Str → Bool
lacks_name none = true
lacks_name (some []) = true
lacks_name (some (c ∷ s)) = false

abbrev pub has_content : Option Bytes → Bool
has_content none = false
has_content (some bytes) = true

-- the condition under which `encode` throws
unfoldable pub is_invalid : YFile → Bool
is_invalid file =
    lacks_name file.name
    || not (is_set file.size)
    || not (has_content file.content)
    || ((is_set file.total || is_set file.part || is_set file.begin || is_set file.end)
        && (not (is_set file.total)
            || not (is_set file.part)
            || not (is_set file.begin)
            || not (is_set file.end)))

-- `!file.line`: not set, NaN or 0
abbrev pub is_falsy : Option Number → Bool
is_falsy none = true
is_falsy (some nan) = true
is_falsy (some (num n)) = eqb_ℤ n (pos 0)

-- the fields that `encode` sets itself
unfoldable pub with_defaults : YFile → YFile
with_defaults file =
    let lined = if is_falsy file.line then record file { line = some (nat line_max) } else file in
    if is_set file.total then lined else record lined { begin = some (nat 0); end = file.size }

abbrev pub name_of : YFile → Str
name_of file = elim file.name [ none ↦ codes "undefined" | some s ↦ s ]

-- `${file.begin + 1}`
abbrev pub succ : Number → Number
succ nan = nan
succ (num n) = num (n +ℤ pos 1)

unfoldable pub header_text : YFile → Str
header_text file =
    if is_set file.total
    then codes "=ybegin part="
      ++ opt_to_string file.part
      ++ codes " total="
      ++ opt_to_string file.total
      ++ codes " line="
      ++ opt_to_string file.line
      ++ codes " size="
      ++ opt_to_string file.size
      ++ codes " name="
      ++ name_of file
      ++ codes "\n=ypart begin="
      ++ to_string (succ (to_number file.begin))
      ++ codes " end="
      ++ opt_to_string file.end
      ++ codes "\n"
    else codes "=ybegin line="
      ++ opt_to_string file.line
      ++ codes " size="
      ++ opt_to_string file.size
      ++ codes " name="
      ++ name_of file
      ++ codes "\n"

-- `n >= x`
abbrev pub at_least : ℕ → Number → Bool
at_least n nan = false
at_least n (num x) = not (ltb_ℤ (pos n) x)

module _ (lib : Libraries) where
  open lib use {Writer, new_writer, write, write_byte, finish, crc32_buf}

  unfoldable pub write_header : YFile → Writer → Writer
  write_header file b = write b (from_string (header_text file))

  -- `writeBody` on the bytes left, with the offset in the line; at the end a line is closed
  unfoldable pub write_body : Number → Bytes → ℕ → Writer → Writer
  write_body line [] line_offset b = if ltb 0 line_offset then write_byte b 0x0a else b
  write_body line (x ∷ data_left) line_offset b =
      let c = byte_add x (pos 42) in
      elim (match_critical_char c) [
        | true ↦
            let wraps = at_least (line_offset + 2) line in
            let b' = if wraps then write_byte b 0x0a else b in
            let offset = if wraps then 0 else line_offset in
            write_body line data_left (offset + 2)
              (write_byte (write_byte b' 0x3d) (byte_add c (pos 64)))
        | false ↦
            let wraps = at_least line_offset line in
            let b' = if wraps then write_byte b 0x0a else b in
            let offset = if wraps then 0 else line_offset in
            write_body line data_left (offset + 1) (write_byte b' c)
      ]

  -- `(crc32.buf(file.data) >>> 0).toString(16).padStart(8, '0')`
  unfoldable pub crc_text : Bytes → Str
  crc_text bytes = pad_start 8 b'0' (nat_to_string 16 (to_uint32 (crc32_buf bytes none)))

  unfoldable pub write_trailer : YFile → Writer → Writer
  write_trailer file b =
      let sum = crc_text (content_of file) in
      let b1 =
        write b (from_string (codes "=yend size=" ++ to_string (nat (length (content_of file))))) in
      let b2 =
        if is_set file.total && less (to_number file.part) (to_number file.total)
        then write b1 (from_string (codes " pcrc32=" ++ sum))
        else b1 in
      let b3 =
        if opt_eq file.part file.total
        then write b2 (from_string (codes " crc32=" ++ sum))
        else b2 in
      write_byte b3 0x0a

  -- `encode` returns the bytes, and leaves its defaults in the caller's record.
  unfoldable pub encode : YFile → Outcome (Bytes × YFile)
  encode file =
      if is_invalid file
      then throw invalid_encode_parameters
      else let full = with_defaults file in
        let headed = write_header full new_writer in
        let bodied = write_body (to_number full.line) (content_of full) 0 headed in
        ok (finish (write_trailer full bodied), full)
