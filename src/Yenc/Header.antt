-- ===== src/Yenc/Header.antt =====
-- `readHeader` and `consumePart`: what stands before `=ybegin`, the `=ybegin` line and the `=ypart`
-- line.
use usebin.Base.{
  ℕ, zero, suc, ◌+◌, Bool, true, false, not, ◌&&◌, ◌||◌, Option, none, some, [], find_index,
  if◌then◌else◌, Str, codes, length, str_eq,
}
use usebin.Bytes.{has_prefix}
use usebin.Js.Number.{Number, nat, less, minus, to_number}
use usebin.Js.Parse.{trim, parse_int}
use usebin.Yenc.{
  YFile, State, at_start, at_begin, at_escape, at_data, begin_marker_not_found, missing_line,
  missing_size, missing_part_line, begin_below_one, no_part_begin, missing_end, end_before_begin,
  end_exceeds_size, ybegin, ypart, yend, match_crlf, match_not_crlf, spin,
}
use usebin.Yenc.Libraries.{Libraries}
use usebin.Yenc.Reader.{
  M, ◌>>=◌, ◌>>◌, pure, raise, throw_if, get_encoded, get_state, get_file, set_file, set_state,
  advance, advance_to, Arg, arguments,
}
use usebin.Yenc.Trailer.{is_set, consume_end}

-- the `switch (key)` of the `=ybegin` line
unfoldable pub set_field : Arg → YFile → YFile
set_field arg file =
    if str_eq arg.key (codes "line")
    then record file { line = some (parse_int none arg.value) }
    else if str_eq arg.key (codes "size")
    then record file { size = some (parse_int none arg.value) }
    else if str_eq arg.key (codes "part")
    then record file { part = some (parse_int none arg.value) }
    else if str_eq arg.key (codes "total")
    then record file { total = some (parse_int none arg.value) }
    else if str_eq arg.key (codes "name")
    then record file { name = some (trim arg.value) }
    else file

-- The loop has no local variable besides `atEOL`.
unfoldable pub begin_argument : Arg → Unit {0} → M (Unit {0})
begin_argument arg _ = do file ← get_file; set_file (set_field arg file)

abbrev pub is_name : Str → Bool
is_name key = str_eq key (codes "name")

-- the checks behind the arguments of the `=ybegin` line
unfoldable pub check_begin : M (Unit {0})
check_begin = do
  file ← get_file
  throw_if (not (is_set file.line)) missing_line
  throw_if (not (is_set file.size)) missing_size
  set_state at_begin

-- what `readHeader` does at a `=ybegin` keyword
unfoldable pub begin_line : ℕ → M (Unit {0})
unfolding check_begin
begin_line fuel = do
  _ ← advance (length ybegin)
  arguments fuel (some is_name) begin_argument tt
  check_begin

-- the body of the loop of `consumePart`
unfoldable pub part_argument : Arg → Unit {0} → M (Unit {0})
part_argument arg _ =
    if str_eq arg.key (codes "begin")
    then (do
      file ← get_file
      let begin = parse_int none arg.value
      set_file (record file { begin = some begin })
      throw_if (less begin (nat 1)) (begin_below_one arg.value))
    else if str_eq arg.key (codes "end")
    then (do file ← get_file; set_file (record file { end = some (parse_int none arg.value) }))
    else pure tt

-- the checks behind the loop; `file.begin--` makes the offset 0-based
unfoldable pub check_part : M (Unit {0})
check_part = do
  file ← get_file
  throw_if (not (is_set file.begin)) no_part_begin
  let begin = minus (to_number file.begin) (nat 1)
  set_file (record file { begin = some begin })
  throw_if (not (is_set file.end)) missing_end
  let end = to_number file.end
  throw_if (less end begin) (end_before_begin end begin)
  throw_if (less (to_number file.size) end) (end_exceeds_size end file.size)

unfoldable pub consume_part : ℕ → M (Unit {0})
consume_part fuel = do _ ← advance (length ypart); arguments fuel none part_argument tt; check_part

-- with the index of the next line break, or none
unfoldable pub skip_past : Option ℕ → M (Unit {0})
skip_past none = raise begin_marker_not_found
skip_past (some i) = do _ ← advance (i + 1); pure tt

-- where the text is not at a `=ybegin`
unfoldable pub skip_line : M (Unit {0})
skip_line = do encoded ← get_encoded; skip_past (find_index match_crlf encoded)

-- the multipart checks behind the loop of `readHeader`
abbrev pub check_multipart : M (Unit {0})
check_multipart = do
  file ← get_file
  throw_if ((is_set file.part || is_set file.total) && not (is_set file.part)) missing_part_line

module _ (lib : Libraries) (crc32seed : Option Number) where
  -- a `=ypart` line, or the `=yend` line of an empty file, or data
  unfoldable pub at_keyword : ℕ → M (Unit {0})
  at_keyword fuel = do
    encoded ← get_encoded
    (if has_prefix encoded ypart
        then consume_part fuel
        else if has_prefix encoded yend
        then (do
          file ← get_file
          set_file (record file { content = some [] })
          consume_end lib crc32seed fuel)
        else pure tt)

  -- what `readHeader` does in `State.Begin`, before it leaves the loop
  unfoldable pub after_begin : ℕ → M (Unit {0})
  after_begin fuel = do _ ← advance_to match_not_crlf true; at_keyword fuel

  -- A round of `while (true)` of `readHeader`, by the state and by `hasPrefix(encoded, ybegin)`. In
  -- the states `Escape` and `Data` no branch is taken.
  unfoldable pub header_round : State → Bool → ℕ → M (Unit {0}) → M (Unit {0})
  header_round at_start true fuel more = begin_line fuel >> more
  header_round at_start false fuel more = skip_line >> more
  header_round at_begin starts fuel more = after_begin fuel
  header_round at_escape starts fuel more = more
  header_round at_data starts fuel more = more

  unfoldable pub header_loop : ℕ → ℕ → M (Unit {0})
  header_loop zero fuel = λ d. spin
  header_loop (suc rounds) fuel = do
    s ← get_state
    encoded ← get_encoded
    header_round s (has_prefix encoded ybegin) fuel (header_loop rounds fuel)

  unfoldable pub read_header : ℕ → M (Unit {0})
  read_header fuel = do header_loop fuel fuel; check_multipart
