-- ===== src/Yenc/Encode/Written.antt =====
-- What `writeBody` writes is the body.
use usebin.Base.{
  ℕ, ◌+◌, ◌≡◌, refl, sym, ap, ◌∙◌, Bool, true, false, [], ◌∷◌, ◌++◌, ltb, if◌then◌else◌,
  append_assoc, append-nil, Bytes, arith,
}
use usebin.Js.Number.{Number}
use usebin.Yenc.{match_critical_char}
use usebin.Yenc.Libraries.{Libraries}
use usebin.Yenc.Encode.{write_body}
use usebin.Yenc.Encode.Body.{
  shifted, escaped, line_break, offset_behind, body_text, shifted-bound, escaped-bound,
  escape_wraps, plain_wraps, escaping, plainly, body_text-escaped, body_text-plain,
}

module _ (lib : Libraries) where
  open lib use {Writer, write_byte, finish, finish-write_byte}

  abbrev break_line : Bool → Writer → Writer
  break_line wraps b = if wraps then write_byte b 0x0a else b

  finish-break_line :
      (wraps : Bool) (b : Writer) → finish (break_line wraps b) ≡ finish b ++ line_break wraps
  finish-break_line true b = finish-write_byte b 10 (omega arith)
  finish-break_line false b = sym (append-nil (finish b))

  module _ (line : Number) (x : ℕ) (xs : Bytes) (line_offset : ℕ) (b : Writer) where
    abbrev after_escaped : Writer
    after_escaped =
        write_byte (write_byte (break_line (escape_wraps line x xs line_offset) b) 0x3d) (escaped x)

    abbrev after_plain : Writer
    after_plain = write_byte (break_line (plain_wraps line x xs line_offset) b) (shifted x)

    abbrev write_chosen : Bool → Writer
    write_chosen critical = elim critical [
      | true ↦
          write_body lib line xs
            (offset_behind (escape_wraps line x xs line_offset) line_offset + 2) after_escaped
      | false ↦
          write_body lib line xs (offset_behind (plain_wraps line x xs line_offset) line_offset + 1)
            after_plain
    ]

    write_body-chosen :
        (critical : Bool)
        → match_critical_char (shifted x) ≡ critical
        → write_body lib line (x ∷ xs) line_offset b ≡ write_chosen critical
    unfolding write_body
    write_body-chosen critical e = ap write_chosen e

    finish-after_plain :
        finish after_plain ++ plainly line x xs line_offset
        ≡ finish b
          ++ (line_break (plain_wraps line x xs line_offset)
              ++ shifted x ∷ plainly line x xs line_offset)
    finish-after_plain =
        let wraps = plain_wraps line x xs line_offset in
        let rest = plainly line x xs line_offset in
        let c = shifted x in
        ap (◌++ rest) (
          finish-write_byte (break_line wraps b) c (shifted-bound x)
          ∙ ap (◌++ c ∷ []) (finish-break_line wraps b))
        ∙ append_assoc (finish b ++ line_break wraps) (c ∷ []) rest
        ∙ append_assoc (finish b) (line_break wraps) (c ∷ rest)

    finish-after_escaped :
        finish after_escaped ++ escaping line x xs line_offset
        ≡ finish b
          ++ (line_break (escape_wraps line x xs line_offset)
              ++ 0x3d ∷ escaped x ∷ escaping line x xs line_offset)
    finish-after_escaped =
        let wraps = escape_wraps line x xs line_offset in
        let rest = escaping line x xs line_offset in
        let c = escaped x in
        let broken = break_line wraps b in
        ap (◌++ rest) (
          finish-write_byte (write_byte broken 0x3d) c (escaped-bound x)
          ∙ ap (◌++ c ∷ []) (
              finish-write_byte broken 0x3d (omega arith)
              ∙ ap (◌++ 0x3d ∷ []) (finish-break_line wraps b)))
        ∙ append_assoc (finish b ++ line_break wraps ++ 0x3d ∷ []) (c ∷ []) rest
        ∙ append_assoc (finish b ++ line_break wraps) (0x3d ∷ []) (c ∷ rest)
        ∙ append_assoc (finish b) (line_break wraps) (0x3d ∷ c ∷ rest)

  -- `writeBody` writes these lines behind what is written.
  pub finish-write_body :
      (line : Number) (xs : Bytes) (line_offset : ℕ) (b : Writer)
      → finish (write_body lib line xs line_offset b) ≡ finish b ++ body_text line xs line_offset
  unfolding write_body body_text
  finish-write_body line [] line_offset b = finish-break_line (ltb 0 line_offset) b
  finish-write_body line (x ∷ xs) line_offset b =
      go (match_critical_char (shifted x)) refl
        (finish-write_body line xs
          (offset_behind (escape_wraps line x xs line_offset) line_offset + 2)
          (after_escaped line x xs line_offset b))
        (finish-write_body line xs
          (offset_behind (plain_wraps line x xs line_offset) line_offset + 1)
          (after_plain line x xs line_offset b))
    where
      go :
          (critical : Bool)
          → match_critical_char (shifted x) ≡ critical
          → finish (write_chosen line x xs line_offset b true)
            ≡ finish (after_escaped line x xs line_offset b) ++ escaping line x xs line_offset
          → finish (write_chosen line x xs line_offset b false)
            ≡ finish (after_plain line x xs line_offset b) ++ plainly line x xs line_offset
          → finish (write_body lib line (x ∷ xs) line_offset b)
            ≡ finish b ++ body_text line (x ∷ xs) line_offset
      go true e on_escaped on_plain =
          ap finish (write_body-chosen line x xs line_offset b true e)
          ∙ on_escaped
          ∙ finish-after_escaped line x xs line_offset b
          ∙ ap (finish b ++◌) (sym (body_text-escaped line x xs line_offset e))
      go false e on_escaped on_plain =
          ap finish (write_body-chosen line x xs line_offset b false e)
          ∙ on_plain
          ∙ finish-after_plain line x xs line_offset b
          ∙ ap (finish b ++◌) (sym (body_text-plain line x xs line_offset e))
