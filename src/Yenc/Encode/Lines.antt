-- ===== src/Yenc/Encode/Lines.antt =====
-- The lines that `writeBody` writes: their length, and the characters that they are free of.
use usebin.Base.{
  ℕ, suc, ◌+◌, ◌<◌, ◌≤◌, ◌≡◌, ◌≢◌, refl, sym, ap, ◌∙◌, Bool, true, false, [], ◌∷◌, ◌++◌, ltb, ◌==◌,
  if◌then◌else◌, Bytes, All, All-append, arith,
}
use mathlib.Core.Path.{subst}
use usebin.Js.Number.{Number, nat}
use usebin.Yenc.Libraries.{Libraries}
use usebin.Yenc.Encode.{write_body}
use usebin.Yenc.Encode.Body.{
  shifted, escaped, line_break, offset_behind, body_text, escape_wraps, plain_wraps, escaping,
  plainly, body_text_ind, escaped-range, shifted-bound, escaped-bound,
}
use usebin.Yenc.Encode.Written.{finish-write_body}

-- No line is longer than `most`, where `count` characters of the first line are already counted.
abbrev pub FitLines : ℕ → ℕ → Bytes → Type 0
FitLines most count [] = Unit
FitLines most count (c ∷ cs) =
    if c == 10 then FitLines most 0 cs else ((suc count ≤ most) × FitLines most (suc count) cs)

abbrev pub longest : ℕ → ℕ
longest line = if ltb line 2 then 2 else line

fit_escaped :
    (most count c : ℕ) (wraps : Bool) (rest : Bytes)
    → c ≢ 10
    → 2 ≤ most
    → (wraps ≡ false → count + 2 ≤ most)
    → FitLines most (offset_behind wraps count + 2) rest
    → FitLines most count (line_break wraps ++ 0x3d ∷ c ∷ rest)
fit_escaped most count c true rest n t h f = ground arith
fit_escaped most count c false rest n t h f = ground (arith, h refl)

fit_plain :
    (most count c : ℕ) (wraps : Bool) (rest : Bytes)
    → c ≢ 10
    → 2 ≤ most
    → (wraps ≡ false → count + 1 ≤ most)
    → FitLines most (offset_behind wraps count + 1) rest
    → FitLines most count (line_break wraps ++ c ∷ rest)
fit_plain most count c true rest n t h f = ground arith
fit_plain most count c false rest n t h f = ground (arith, h refl)

body_text-FitLines :
    (line : ℕ)
    → 0 < line
    → (xs : Bytes) (count : ℕ) → count ≤ longest line
    → FitLines (longest line) count (body_text (nat line) xs count)
body_text-FitLines line p =
    body_text_ind (nat line)
      (λ xs count text. count ≤ longest line → FitLines (longest line) count text)
      (λ count h. ground arith)
      (λ x xs count e f h.
        fit_escaped (longest line) count (escaped x) (escape_wraps (nat line) x xs count)
          (escaping (nat line) x xs count) (escaped-range x e).1 (ground arith) (λ w. ground arith)
          (f (ground arith)))
      (λ x xs count e f h.
        fit_plain (longest line) count (shifted x) (plain_wraps (nat line) x xs count)
          (plainly (nat line) x xs count) (λ n. ground arith) (ground arith) (λ w. ground arith)
          (f (ground arith)))

abbrev pub IsClean : ℕ → Type 0
IsClean c = (c < 256) × (c ≢ 0) × (c ≢ 13)

break-IsClean : (wraps : Bool) → All IsClean (line_break wraps)
break-IsClean true = ((omega arith, λ e. omega arith, λ e. omega arith), tt)
break-IsClean false = tt

pub body_text-IsClean :
    (line : Number) (xs : Bytes) (count : ℕ) → All IsClean (body_text line xs count)
body_text-IsClean line =
    body_text_ind line (λ xs count text. All IsClean text) (λ count. break-IsClean (ltb 0 count))
      (λ x xs count e f.
        All-append IsClean (line_break (escape_wraps line x xs count)) _
          (break-IsClean (escape_wraps line x xs count))
          (
            (omega arith, λ n. omega arith, λ n. omega arith),
            ((escaped-bound x, (escaped-range x e).3, (escaped-range x e).0), f),
          ))
      (λ x xs count e f.
        All-append IsClean (line_break (plain_wraps line x xs count)) _
          (break-IsClean (plain_wraps line x xs count))
          ((shifted-bound x, λ n. ground arith, λ n. ground arith), f))

module _ (lib : Libraries) where
  open lib use {new_writer, finish, finish-new_writer}

  written :
      (line : Number) (xs : Bytes)
      → finish (write_body lib line xs 0 new_writer) ≡ body_text line xs 0
  written line xs =
      finish-write_body lib line xs 0 new_writer ∙ ap (◌++ body_text line xs 0) finish-new_writer

  -- Of a body written with a line length of at least 1, no line has more characters than the line
  -- length, or than 2 where the line length is 1.
  pub write_body-FitLines :
      (line : ℕ) (xs : Bytes)
      → 0 < line
      → FitLines (longest line) 0 (finish (write_body lib (nat line) xs 0 new_writer))
  write_body-FitLines line xs p =
      subst (FitLines (longest line) 0) (sym (written (nat line) xs))
        (body_text-FitLines line p xs 0 (omega arith))

  -- A body is made of bytes, and holds no NUL and no carriage return.
  pub write_body-IsClean :
      (line : Number) (xs : Bytes) → All IsClean (finish (write_body lib line xs 0 new_writer))
  write_body-IsClean line xs =
      subst (All IsClean) (sym (written line xs)) (body_text-IsClean line xs 0)
