-- ===== src/Yenc/Fuel/Preamble.antt =====
-- Lines in front of the `=ybegin` line: `decode` skips them.
use usebin.Base.{
  ℕ, suc, ◌+◌, ◌≡◌, refl, ap, sym, ◌∙◌, true, false, List, All, Option, some, [], ◌∷◌, ◌++◌, arith,
  Bytes, length, find_index, length-append, append_assoc,
}
use usebin.Bytes.{has_prefix}
use usebin.Bytes.Prefix.{starts_with, has_prefix-starts_with}
use usebin.Js.Number.{Number}
use usebin.Yenc.{ybegin, at_start, match_crlf, Outcome, YFile, ok}
use usebin.Yenc.Libraries.{Libraries}
use usebin.Yenc.Reader.{Decoder, ◌>>◌, pure, get_file, reading, advance}
use usebin.Yenc.Reader.Bind.{then_do, bind-ok}
use usebin.Yenc.Reader.Cuts.{advance_lem}
use usebin.Yenc.Header.{
  skip_past, skip_line, header_round, header_loop, check_multipart, read_header,
}
use usebin.Yenc.Data.{decode_data}
use usebin.Yenc.Decode.{decode_within, decode, file_of}
use usebin.Yenc.Fuel.Endless.{Unbroken}
use usebin.Yenc.Fuel.Loops.{stages-agree}

-- the first line break of a line that has none but its last character
first_break :
    (line rest : Bytes) (c : ℕ)
    → Unbroken line
    → match_crlf c ≡ true
    → find_index match_crlf (line ++ c ∷ rest) ≡ some (length line)
first_break [] rest c h b = rw (b, find_index) refl
first_break (x ∷ line) rest c h b = ground (arith, first_break line rest c h.1 b)

skip_line_lem :
    (line rest : Bytes) (c : ℕ)
    → Unbroken line
    → match_crlf c ≡ true
    → skip_line (reading (line ++ c ∷ rest)) ≡ ok (tt, reading rest)
unfolding skip_line skip_past
skip_line_lem line rest c h b =
    ap (λ o. skip_past o (reading (line ++ c ∷ rest))) (first_break line rest c h b)
    ∙ bind-ok (advance (length line + 1)) (λ _. pure tt) (reading (line ++ c ∷ rest)) (reading rest)
        (line ++ c ∷ [])
        (ap (λ n. advance n (reading (line ++ c ∷ rest))) {y = length (line ++ c ∷ [])}
            (omega (arith, length-append line (c ∷ [])))
          ∙ advance_lem (line ++ c ∷ []) rest (reading (line ++ c ∷ rest))
              (sym (append_assoc line (c ∷ []) rest)))

-- A line that does not begin with a prefix does not do so by its line break.
starts_with-break :
    (prefix line rest : Bytes) (c : ℕ)
    → Unbroken prefix
    → match_crlf c ≡ true
    → starts_with prefix line ≡ false
    → starts_with prefix (line ++ c ∷ rest) ≡ false
starts_with-break [] line rest c u b h = h
starts_with-break (x ∷ prefix) [] rest c u b h = ground arith
starts_with-break (x ∷ prefix) (y ∷ line) rest c u b h =
    ground (arith, starts_with-break prefix line rest c u.1 b)

abbrev pub IsSkipped : Bytes → Type 0
IsSkipped line = Unbroken line × (has_prefix line ybegin ≡ false)

IsSkipped-prefix :
    (line rest : Bytes) (c : ℕ)
    → IsSkipped line
    → match_crlf c ≡ true
    → has_prefix (line ++ c ∷ rest) ybegin ≡ false
IsSkipped-prefix line rest c h b =
    has_prefix-starts_with (line ++ c ∷ rest) ybegin
    ∙ starts_with-break ybegin line rest c (ground arith) b
        (sym (has_prefix-starts_with line ybegin) ∙ h.1)

-- lines with their line feeds, in front of the rest
abbrev pub after_lines : List Bytes → Bytes → Bytes
after_lines [] rest = rest
after_lines (line ∷ lines) rest = line ++ (0x0a ∷ after_lines lines rest)

module _ (lib : Libraries) (seed : Option Number) where
  -- `decode` with a bound on the rounds of its first loop, and one on those of the others
  abbrev stages : ℕ → ℕ → Decoder → Outcome (YFile × Decoder)
  stages rounds fuel =
      (header_loop lib seed rounds fuel >> check_multipart)
      >> (decode_data lib seed fuel >> get_file)

  module _ (line rest : Bytes) (c : ℕ) (h : Unbroken line) (b : match_crlf c ≡ true)
      (s : has_prefix (line ++ c ∷ rest) ybegin ≡ false) where
    header_loop-line :
        (rounds fuel : ℕ)
        → header_loop lib seed (suc rounds) fuel (reading (line ++ c ∷ rest))
          ≡ header_loop lib seed rounds fuel (reading rest)
    unfolding header_loop header_round
    header_loop-line rounds fuel =
        ap
          (λ starts.
            header_round lib seed at_start starts fuel (header_loop lib seed rounds fuel)
              (reading (line ++ c ∷ rest)))
          s
        ∙ bind-ok skip_line (λ _. header_loop lib seed rounds fuel) (reading (line ++ c ∷ rest))
            (reading rest) tt (skip_line_lem line rest c h b)

    decode-line : decode lib seed (line ++ c ∷ rest) ≡ decode lib seed rest
    unfolding decode decode_within read_header
    decode-line =
        let n = length rest in
        let m = length (line ++ c ∷ rest) in
        let more = length-append line (c ∷ rest) in
        ap file_of (
          ap (λ r. stages r (m + 2) (reading (line ++ c ∷ rest))) {y = suc (m + 1)} (omega arith)
          ∙ ap
              (λ o.
                then_do (λ _. decode_data lib seed (m + 2) >> get_file)
                  (then_do (λ _. check_multipart) o))
              (header_loop-line (m + 1) (m + 2))
          ∙ stages-agree lib seed n (m + 2) (n + 2) (omega arith) (omega arith) (m + 1) (n + 2)
              (reading rest) refl (omega arith) (omega arith) (omega arith))

  -- Whatever bytes follow: lines that have no line break inside and do not begin with `=ybegin `, each with
  -- a line feed behind it, change nothing of the outcome of `decode` on the bytes that follow.
  pub decode-after_lines :
      (lines : List Bytes) (rest : Bytes)
      → All IsSkipped lines
      → decode lib seed (after_lines lines rest) ≡ decode lib seed rest
  decode-after_lines [] rest h = refl
  decode-after_lines (line ∷ lines) rest (s, h) =
      decode-line line (after_lines lines rest) 0x0a s.0 refl
        (IsSkipped-prefix line (after_lines lines rest) 0x0a s refl)
      ∙ decode-after_lines lines rest h
