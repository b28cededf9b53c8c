-- ===== src/Yenc/Sound/Headers.antt =====
-- What `readHeader` has checked of the fields.
use usebin.Base.{
  ℕ, zero, suc, ◌≡◌, refl, sym, ap, ◌∙◌, Bool, true, false, Option, none, some, [], arith, length,
}
use mathlib.Core.Path.{subst}
use usebin.Bytes.{has_prefix}
use usebin.Js.Number.{Number, less, to_number}
use usebin.Yenc.{
  YFile, State, at_start, at_begin, at_escape, at_data, ok, ybegin, ypart, match_not_crlf,
}
use usebin.Yenc.Libraries.{Libraries}
use usebin.Yenc.Reader.{Decoder, M, ◌>>◌, Arg, arguments, advance, advance_to}
use usebin.Yenc.Reader.Bind.{bind-eq-ok}
use usebin.Yenc.Reader.Keeps.{Keeps}
use usebin.Yenc.Header.{
  set_field, begin_argument, is_name, check_begin, begin_line, part_argument, check_part,
  consume_part, skip_line, skip_past, at_keyword, after_begin, header_round, header_loop,
  check_multipart, read_header,
}
use usebin.Yenc.Trailer.{is_set, consume_end}
use usebin.Yenc.Fuel.States.{begin_line-state, SameState-skip_line}
use usebin.Yenc.Reader.Shrinks.{SameState-eq}
use usebin.Yenc.Sound.Trailers.{
  SameFile, SameFile-eq, SameFile-advance, SameFile-advance_to, SameFile-consume_end,
  same_file_rules, arguments_inv,
}

-- behind the `=ybegin` line
pub record Begun (file : YFile) : Type 0 where
  pub line_set : is_set file.line ≡ true
  pub size_set : is_set file.size ≡ true
  pub no_end : file.end ≡ none

-- behind the header: an end offset comes with a begin offset, and they lie in order in the file
pub record Checked (file : YFile) : Type 0 where
  pub line_set : is_set file.line ≡ true
  pub size_set : is_set file.size ≡ true
  pub in_order : is_set file.end ≡ true → less (to_number file.end) (to_number file.begin) ≡ false
  pub in_file : is_set file.end ≡ true → less (to_number file.size) (to_number file.end) ≡ false

begin_argument-no_end :
    (arg : Arg) (l l' : Unit {0}) (d d' : Decoder)
    → d.file.end ≡ none
    → begin_argument arg l d ≡ ok (l', d')
    → d'.file.end ≡ none
unfolding begin_argument set_field
begin_argument-no_end arg l l' d d' h e = ground arith

check_begin-Begun :
    (d d' : Decoder) (a : Unit {0}) → d.file.end ≡ none → check_begin d ≡ ok (a, d') → Begun d'.file
unfolding check_begin
check_begin-Begun d d' a h e = ground arith

begin_line-Begun :
    (fuel : ℕ) (d d' : Decoder) (a : Unit {0})
    → d.file.end ≡ none
    → begin_line fuel d ≡ ok (a, d')
    → Begun d'.file
unfolding begin_line
begin_line-Begun fuel d d' a h e =
    let loop = arguments fuel (some is_name) begin_argument tt in
    let (b, d1, e1, e2) =
      bind-eq-ok (advance (length ybegin)) (λ _. loop >> check_begin) d d' a e in
    let (u, d2, e3, e4) = bind-eq-ok loop (λ _. check_begin) d1 d' a e2 in
    let same = SameFile-eq d d1 ((SameFile-advance (length ybegin)).at d d1 b e1) in
    let still =
      arguments_inv (λ _ f. f.file.end ≡ none) (some is_name) begin_argument (λ l f k. k)
        begin_argument-no_end fuel tt u d1 d2 (ap (λ (f : YFile). f.end) same ∙ h) e3 in
    check_begin-Begun d2 d' a still e4

part_argument-keeps :
    (arg : Arg) (l l' : Unit {0}) (d d' : Decoder)
    → (is_set d.file.line ≡ true) × (is_set d.file.size ≡ true)
    → part_argument arg l d ≡ ok (l', d')
    → (is_set d'.file.line ≡ true) × (is_set d'.file.size ≡ true)
unfolding part_argument
part_argument-keeps arg l l' d d' h e = ground arith

check_part-Checked :
    (d d' : Decoder) (a : Unit {0})
    → (is_set d.file.line ≡ true) × (is_set d.file.size ≡ true)
    → check_part d ≡ ok (a, d')
    → Checked d'.file
unfolding check_part
check_part-Checked d d' a h e = ground arith

consume_part-Checked :
    (fuel : ℕ) (d d' : Decoder) (a : Unit {0})
    → (is_set d.file.line ≡ true) × (is_set d.file.size ≡ true)
    → consume_part fuel d ≡ ok (a, d')
    → Checked d'.file
unfolding consume_part
consume_part-Checked fuel d d' a h e =
    let loop = arguments fuel none part_argument tt in
    let (b, d1, e1, e2) = bind-eq-ok (advance (length ypart)) (λ _. loop >> check_part) d d' a e in
    let (u, d2, e3, e4) = bind-eq-ok loop (λ _. check_part) d1 d' a e2 in
    let same = SameFile-eq d d1 ((SameFile-advance (length ypart)).at d d1 b e1) in
    let still =
      arguments_inv (λ _ f. (is_set f.file.line ≡ true) × (is_set f.file.size ≡ true)) none
        part_argument (λ l f k. k) part_argument-keeps fuel tt u d1 d2
        (ap (λ (f : YFile). is_set f.line) same ∙ h.0, ap (λ (f : YFile). is_set f.size) same ∙ h.1)
        e3 in
    check_part-Checked d2 d' a still e4

Begun-Checked : (file : YFile) → Begun file → Checked file
Begun-Checked file b = ground arith

SameFile-skip_past : (i : Option ℕ) → Keeps SameFile (skip_past i)
unfolding skip_past
SameFile-skip_past none = search same_file_rules
SameFile-skip_past (some i) = search same_file_rules

SameFile-skip_line : Keeps SameFile skip_line
unfolding skip_line
SameFile-skip_line = search (same_file_rules, SameFile-skip_past)

SameFile-check_multipart : Keeps SameFile check_multipart
SameFile-check_multipart = search same_file_rules

module _ (lib : Libraries) (seed : Option Number) (fuel : ℕ) where
  consume_end-file :
      (d d' : Decoder) (a : Unit {0}) → consume_end lib seed fuel d ≡ ok (a, d') → d'.file ≡ d.file
  consume_end-file d d' a e = SameFile-eq d d' ((SameFile-consume_end lib seed fuel).at d d' a e)

  at_keyword-Checked :
      (d d' : Decoder) (a : Unit {0})
      → Begun d.file
      → at_keyword lib seed fuel d ≡ ok (a, d')
      → Checked d'.file
  unfolding at_keyword
  at_keyword-Checked d d' a h e =
      let emptied = record d { file = record d.file { content = some [] } } in
      ground (arith, consume_part-Checked fuel d d' a, consume_end-file emptied d' a)

  after_begin-Checked :
      (d d' : Decoder) (a : Unit {0})
      → Begun d.file
      → after_begin lib seed fuel d ≡ ok (a, d')
      → Checked d'.file
  unfolding after_begin
  after_begin-Checked d d' a h e =
      let (b, d1, e1, e2) =
        bind-eq-ok (advance_to match_not_crlf true) (λ _. at_keyword lib seed fuel) d d' a e in
      let same = SameFile-eq d d1 ((SameFile-advance_to match_not_crlf true).at d d1 b e1) in
      at_keyword-Checked d1 d' a (subst Begun (sym same) h) e2

  -- before the `=ybegin` line no field is set; behind it the line is checked
  Ready : State → YFile → Type 0
  Ready at_start f = f.end ≡ none
  Ready at_begin f = Begun f
  Ready at_escape f = ⊥
  Ready at_data f = ⊥

  header_round-Checked :
      (s : State) (starts : Bool) (more : M (Unit {0})) (d d' : Decoder) (a : Unit {0})
      → d.s ≡ s
      → Ready s d.file
      → ((e : Decoder) → Ready e.s e.file → more e ≡ ok (a, d') → Checked d'.file)
      → header_round lib seed s starts fuel more d ≡ ok (a, d')
      → Checked d'.file
  unfolding header_round Ready
  header_round-Checked at_start true more d d' a s r h e =
      let (b, d1, e1, e2) = bind-eq-ok (begin_line fuel) (λ _. more) d d' a e in
      h d1
        (subst (λ t. Ready t d1.file) (sym (begin_line-state fuel d d1 b e1))
          (begin_line-Begun fuel d d1 b r e1))
        e2
  header_round-Checked at_start false more d d' a s r h e =
      let (b, d1, e1, e2) = bind-eq-ok skip_line (λ _. more) d d' a e in
      h d1
        (subst (λ t. Ready t d1.file)
          (sym (SameState-eq d d1 (SameState-skip_line.at d d1 b e1) ∙ s))
          (ap (λ (f : YFile). f.end) (SameFile-eq d d1 (SameFile-skip_line.at d d1 b e1)) ∙ r))
        e2
  header_round-Checked at_begin starts more d d' a s r h e = after_begin-Checked d d' a r e
  header_round-Checked at_escape starts more d d' a s r h e = absurd r
  header_round-Checked at_data starts more d d' a s r h e = absurd r

  header_loop-Checked :
      (rounds : ℕ) (d d' : Decoder) (a : Unit {0})
      → Ready d.s d.file
      → header_loop lib seed rounds fuel d ≡ ok (a, d')
      → Checked d'.file
  unfolding header_loop
  header_loop-Checked zero d d' a r e = cc
  header_loop-Checked (suc rounds) d d' a r e =
      header_round-Checked d.s (has_prefix d.encoded ybegin) (header_loop lib seed rounds fuel) d d'
        a refl r (λ e' r' h'. header_loop-Checked rounds e' d' a r' h') e

  -- Behind `readHeader` the fields are checked, and a total comes with a part number.
  pub read_header-Checked :
      (d d' : Decoder) (a : Unit {0})
      → d.s ≡ at_start
      → d.file.end ≡ none
      → read_header lib seed fuel d ≡ ok (a, d')
      → Checked d'.file × (is_set d'.file.total ≡ true → is_set d'.file.part ≡ true)
  unfolding read_header
  read_header-Checked d d' a s n e =
      let (b, d1, e1, e2) =
        bind-eq-ok (header_loop lib seed fuel fuel) (λ _. check_multipart) d d' a e in
      let same = SameFile-eq d1 d' (SameFile-check_multipart.at d1 d' a e2) in
      (
        subst Checked (sym same) (
            header_loop-Checked fuel d d1 b
              (subst (λ t. Ready t d.file) (sym s) (unfold Ready in n)) e1),
        λ t. ground arith,
      )
