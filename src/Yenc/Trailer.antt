-- ===== src/Yenc/Trailer.antt =====
-- `consumeEnd`, the `=yend` line: sizes, total and checksums against the header and the data.
use usebin.Base.{
  ℕ, Bool, true, false, not, ◌&&◌, Option, none, some, [], if◌then◌else◌, Bytes, codes, length,
  str_eq,
}
use usebin.Js.Number.{Number, nat, num_eq, opt_eq, minus, to_number, to_uint32}
use usebin.Js.Parse.{parse_int}
use usebin.Yenc.{
  YFile, yend, trailer_size, decoded_size, trailer_total, preceding_crc, final_crc, no_trailer_size,
}
use usebin.Yenc.Libraries.{Libraries}
use usebin.Yenc.Reader.{M, ◌>>=◌, ◌>>◌, pure, throw_if, get_file, advance, Arg, arguments}

-- `file.data`, which is set wherever `consumeEnd` is called
unfoldable pub content_of : YFile → Bytes
content_of file = elim file.content [ none ↦ [] | some bytes ↦ bytes ]

abbrev pub is_set : Option Number → Bool
is_set none = false
is_set (some n) = true

-- `file.part != null ? file.end - file.begin : file.size`
unfoldable pub size_from_header : YFile → Option Number
size_from_header file =
    if is_set file.part then some (minus (to_number file.end) (to_number file.begin)) else file.size

-- The body of the loop over the arguments; the local variable is `hasSize`.
unfoldable pub end_argument : ℕ → Arg → Bool → M Bool
end_argument real_crc32 arg has_size =
    if str_eq arg.key (codes "size")
    then (do
      file ← get_file
      let size = parse_int none arg.value
      throw_if (not (opt_eq (some size) (size_from_header file)))
          (trailer_size (size_from_header file) size)
      throw_if (not (num_eq size (nat (length (content_of file)))))
          (decoded_size size (length (content_of file)))
      pure true)
    else if str_eq arg.key (codes "total")
    then (do
      file ← get_file
      let total = parse_int none arg.value
      throw_if (not (opt_eq (some total) file.total)) (trailer_total file.total total)
      pure has_size)
    else if str_eq arg.key (codes "pcrc32")
    then (do
      let trailer_pcrc32 = parse_int (some 16) arg.value
      throw_if (not (num_eq trailer_pcrc32 (nat real_crc32)))
          (preceding_crc trailer_pcrc32 real_crc32)
      pure has_size)
    else if str_eq arg.key (codes "crc32")
    then (do
      file ← get_file
      let trailer_crc32 = parse_int (some 16) arg.value
      throw_if
          (opt_eq (some (nat (length (content_of file)))) file.size
            && not (num_eq trailer_crc32 (nat real_crc32)))
          (final_crc trailer_crc32 real_crc32)
      pure has_size)
    else pure has_size

module _ (lib : Libraries) (crc32seed : Option Number) where
  open lib use {crc32_buf}

  -- `crc32.buf(data, crc32seed) >>> 0`
  abbrev pub real_crc : Bytes → ℕ
  real_crc bytes = to_uint32 (crc32_buf bytes crc32seed)

  unfoldable pub consume_end : ℕ → M (Unit {0})
  consume_end fuel = do
    _ ← advance (length yend)
    file ← get_file
    has_size ← arguments fuel none (end_argument (real_crc (content_of file))) false
    throw_if (not has_size) no_trailer_size
