-- ===== src/Yenc/RoundTrip/Openings.antt =====
-- `readHeader` on the header lines of a part and of a whole file.
use usebin.Base.{
  ℕ, suc, ◌≤◌, ◌<◌, ◌≡◌, refl, ap, ◌∙◌, Bool, true, false, none, some, [], ◌∷◌, ◌++◌, arith, Bytes,
  Str,
}
use usebin.Bytes.Prefix.{starts_with, has_prefix-starts_with, starts_with-append}
use usebin.Js.Number.{nat}
use usebin.Yenc.{
  YFile, no_fields, at_begin, ok, ybegin, ypart, yend, match_not_crlf, match_critical_char,
}
use usebin.Yenc.Libraries.{Libraries}
use usebin.Yenc.Reader.{reading}
use usebin.Yenc.Reader.Bind.{then_do}
use usebin.Yenc.Header.{read_header, check_multipart, at_keyword}
use usebin.Yenc.Encode.Body.{body_text, shifted, body_text-escaped, body_text-plain, escaped-range}
use usebin.Yenc.RoundTrip.Steps.{at_text}
use usebin.Yenc.RoundTrip.Headers.{IsName, common_arguments, with_common}
use usebin.Yenc.RoundTrip.Begins.{
  five_and, begin_line-single, numbered, multi_arguments, begin_line-multi,
}
use usebin.Yenc.RoundTrip.Parts.{part_arguments, consume_part_lem, read_header_lem, after_begin_lem}

module _ (line size part total begin end : ℕ) (name : Str) where
  -- what is read from the `=ybegin` line of a part
  abbrev multi_begun : YFile
  multi_begun = with_common line size name (numbered part total)

  -- and with the `=ypart` line
  abbrev pub multi_file : YFile
  multi_file = record multi_begun { begin = some (nat begin); end = some (nat end) }

  abbrev part_lines : Bytes → Bytes
  part_lines rest = ypart ++ part_arguments begin end rest

  abbrev pub multi_text : Bytes → Bytes
  multi_text rest = ybegin ++ multi_arguments line size name part total (part_lines rest)

  module _ (lib : Libraries) (n : ℕ) (h : IsName name) (rest : Bytes) where
    at_keyword-part :
        begin ≤ end
        → end ≤ size
        → at_keyword lib none (five_and n) (at_text multi_begun at_begin (part_lines rest))
          ≡ ok (tt, at_text multi_file at_begin rest)
    unfolding at_keyword
    at_keyword-part b e =
        rw
          (has_prefix-starts_with (part_lines rest) ypart
            ∙ starts_with-append ypart (part_arguments begin end rest))
          (consume_part_lem (suc (suc (suc n))) begin end multi_begun rest size refl b e)

    pub read_header-multi :
        begin ≤ end
        → end ≤ size
        → read_header lib none (five_and n) (reading (multi_text rest))
          ≡ ok (tt, at_text multi_file at_begin rest)
    read_header-multi b e =
        read_header_lem lib none (suc (suc (suc n))) n
          (multi_arguments line size name part total (part_lines rest)) multi_begun
          (part_lines rest) (begin_line-multi n line size name (part_lines rest) h part total)
        ∙ ap (then_do (λ _. check_multipart))
            (after_begin_lem lib none n (five_and n) multi_begun 0x3d _ refl ∙ at_keyword-part b e)

-- A text that data begins with: no line break, and no keyword line.
abbrev pub BeginsData : Bytes → Type 0
BeginsData [] = ⊥
BeginsData (c ∷ cs) =
    (match_not_crlf c ≡ true)
    × (starts_with ypart (c ∷ cs) ≡ false)
    × (starts_with yend (c ∷ cs) ≡ false)

module _ (line size : ℕ) (name : Str) (lib : Libraries) (n : ℕ) (h : IsName name) where
  -- what is read from the `=ybegin` line of a whole file
  abbrev pub single_file : YFile
  single_file = with_common line size name no_fields

  at_keyword-data :
      (file : YFile) (c : ℕ) (cs : Bytes)
      → BeginsData (c ∷ cs)
      → at_keyword lib none (five_and n) (at_text file at_begin (c ∷ cs))
        ≡ ok (tt, at_text file at_begin (c ∷ cs))
  unfolding at_keyword
  at_keyword-data file c cs (m, p, e) =
      rw (has_prefix-starts_with (c ∷ cs) ypart ∙ p, has_prefix-starts_with (c ∷ cs) yend ∙ e) refl

  pub read_header-single :
      (rest : Bytes)
      → BeginsData rest
      → read_header lib none (five_and n) (reading (ybegin ++ common_arguments line size name rest))
        ≡ ok (tt, at_text single_file at_begin rest)
  read_header-single [] b = absurd b
  read_header-single (c ∷ cs) b =
      read_header_lem lib none (suc (suc (suc n))) n (common_arguments line size name (c ∷ cs))
        single_file (c ∷ cs) (begin_line-single n line size name (c ∷ cs) h)
      ∙ ap (then_do (λ _. check_multipart)) (
          after_begin_lem lib none n (five_and n) single_file c cs b.0
          ∙ at_keyword-data single_file c cs b)

-- Where lines have more than two characters, the body of some data begins with a byte of the data.
pub body_text-BeginsData :
    (line x : ℕ) (xs tail : Bytes) → 2 < line → BeginsData (body_text (nat line) (x ∷ xs) 0 ++ tail)
body_text-BeginsData line x xs tail h = go (match_critical_char (shifted x)) refl
  where
    go :
        (critical : Bool)
        → match_critical_char (shifted x) ≡ critical
        → BeginsData (body_text (nat line) (x ∷ xs) 0 ++ tail)
    go true e =
        let (n13, n10, n79, n0) = escaped-range x e in
        rw (body_text-escaped (nat line) x xs 0 e) (ground arith)
    go false e = rw (body_text-plain (nat line) x xs 0 e) (ground arith)
