-- ===== src/Yenc/Encode/Body.antt =====
-- The bytes that `writeBody` writes, as a list, and what a byte of the data becomes.
use usebin.Base.{
  ℕ, ◌+◌, ◌<◌, ◌≡◌, ◌≢◌, refl, sym, ap, Bool, true, false, [], ◌∷◌, ◌++◌, ltb, if◌then◌else◌, pos,
  Bytes, arith,
}
use mathlib.Core.Path.{subst}
use usebin.Js.Number.{Number}
use usebin.Yenc.{byte_add, minus_42, minus_106, match_critical_char}
use usebin.Yenc.Encode.{at_least}

-- the byte as it is written where it is not escaped
abbrev pub shifted : ℕ → ℕ
shifted x = byte_add x (pos 42)

-- the byte as it is written behind the escape character
abbrev pub escaped : ℕ → ℕ
escaped x = byte_add (shifted x) (pos 64)

abbrev pub line_break : Bool → Bytes
line_break wraps = if wraps then 10 ∷ [] else []

abbrev pub offset_behind : Bool → ℕ → ℕ
offset_behind wraps line_offset = if wraps then 0 else line_offset

-- the encoded lines of the data, from an offset in the line
unfoldable pub body_text : Number → Bytes → ℕ → Bytes
body_text line [] line_offset = line_break (ltb 0 line_offset)
body_text line (x ∷ xs) line_offset =
    let escape_wraps = at_least (line_offset + 2) line in
    let plain_wraps = at_least line_offset line in
    let escaping = body_text line xs (offset_behind escape_wraps line_offset + 2) in
    let plainly = body_text line xs (offset_behind plain_wraps line_offset + 1) in
    if match_critical_char (shifted x)
    then line_break escape_wraps ++ 0x3d ∷ escaped x ∷ escaping
    else line_break plain_wraps ++ shifted x ∷ plainly

pub shifted-inverse : (x : ℕ) → x < 256 → byte_add (shifted x) minus_42 ≡ x
unfolding byte_add
shifted-inverse x h = ground arith

pub escaped-inverse :
    (x : ℕ) → x < 256 → match_critical_char (shifted x) ≡ true → byte_add (escaped x) minus_106 ≡ x
unfolding byte_add
escaped-inverse x h c = ground arith

-- the escaped character is none of those that end a line, and not `y`
pub escaped-range :
    (x : ℕ)
    → match_critical_char (shifted x) ≡ true
    → (escaped x ≢ 13) × (escaped x ≢ 10) × (escaped x ≢ 0x79) × (escaped x ≢ 0)
unfolding byte_add
escaped-range x c = (λ e. ground arith, λ e. ground arith, λ e. ground arith, λ e. ground arith)

pub shifted-bound : (x : ℕ) → shifted x < 256
unfolding byte_add
shifted-bound x = omega arith

pub escaped-bound : (x : ℕ) → escaped x < 256
unfolding byte_add
escaped-bound x = omega arith

module _ (line : Number) (x : ℕ) (xs : Bytes) (line_offset : ℕ) where
  abbrev pub escape_wraps : Bool
  escape_wraps = at_least (line_offset + 2) line

  abbrev pub plain_wraps : Bool
  plain_wraps = at_least line_offset line

  abbrev pub escaping : Bytes
  escaping = body_text line xs (offset_behind escape_wraps line_offset + 2)

  abbrev pub plainly : Bytes
  plainly = body_text line xs (offset_behind plain_wraps line_offset + 1)

  abbrev choose : Bool → Bytes
  choose critical =
      if critical
      then line_break escape_wraps ++ 0x3d ∷ escaped x ∷ escaping
      else line_break plain_wraps ++ shifted x ∷ plainly

  pub body_text-escaped :
      match_critical_char (shifted x) ≡ true
      → body_text line (x ∷ xs) line_offset ≡ line_break escape_wraps ++ 0x3d ∷ escaped x ∷ escaping
  unfolding body_text
  body_text-escaped e = ap choose e

  pub body_text-plain :
      match_critical_char (shifted x) ≡ false
      → body_text line (x ∷ xs) line_offset ≡ line_break plain_wraps ++ shifted x ∷ plainly
  unfolding body_text
  body_text-plain e = ap choose e

-- Induction over the data: what holds of the text of each suffix, from the offset it starts at.
module _ (line : Number) (P : Bytes → ℕ → Bytes → Type 0) where
  abbrev pub AtEnd : Type 0
  AtEnd = (line_offset : ℕ) → P [] line_offset (line_break (ltb 0 line_offset))

  abbrev pub AtEscaped : Type 0
  AtEscaped =
      (x : ℕ) (xs : Bytes) (line_offset : ℕ)
      → match_critical_char (shifted x) ≡ true
      → let wraps = escape_wraps line x xs line_offset in
        P xs (offset_behind wraps line_offset + 2) (escaping line x xs line_offset)
        → P (x ∷ xs) line_offset
            (line_break wraps ++ 0x3d ∷ escaped x ∷ escaping line x xs line_offset)

  abbrev pub AtPlain : Type 0
  AtPlain =
      (x : ℕ) (xs : Bytes) (line_offset : ℕ)
      → match_critical_char (shifted x) ≡ false
      → let wraps = plain_wraps line x xs line_offset in
        P xs (offset_behind wraps line_offset + 1) (plainly line x xs line_offset)
        → P (x ∷ xs) line_offset (line_break wraps ++ shifted x ∷ plainly line x xs line_offset)

  pub body_text_ind :
      AtEnd
      → AtEscaped
      → AtPlain
      → (xs : Bytes) (line_offset : ℕ) → P xs line_offset (body_text line xs line_offset)
  unfolding body_text
  body_text_ind at_end at_escaped at_plain [] line_offset = at_end line_offset
  body_text_ind at_end at_escaped at_plain (x ∷ xs) line_offset =
      go (match_critical_char (shifted x)) refl
        (body_text_ind at_end at_escaped at_plain xs
          (offset_behind (escape_wraps line x xs line_offset) line_offset + 2))
        (body_text_ind at_end at_escaped at_plain xs
          (offset_behind (plain_wraps line x xs line_offset) line_offset + 1))
    where
      go :
          (critical : Bool)
          → match_critical_char (shifted x) ≡ critical
          → P xs
              (offset_behind (escape_wraps line x xs line_offset) line_offset + 2)
              (escaping line x xs line_offset)
          → P xs
              (offset_behind (plain_wraps line x xs line_offset) line_offset + 1)
              (plainly line x xs line_offset)
          → P (x ∷ xs) line_offset (body_text line (x ∷ xs) line_offset)
      go true e on_escaped on_plain =
          subst (P (x ∷ xs) line_offset) (sym (body_text-escaped line x xs line_offset e))
            (at_escaped x xs line_offset e on_escaped)
      go false e on_escaped on_plain =
          subst (P (x ∷ xs) line_offset) (sym (body_text-plain line x xs line_offset e))
            (at_plain x xs line_offset e on_plain)
