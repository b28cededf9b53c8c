-- ===== src/Client/Upload/Draws.antt =====
-- The random numbers of an upload, in the order in which they are drawn: the name, and the record that
-- `yEncFileEncode` makes up.
use usebin.Base.{
  ℕ, zero, suc, ◌+◌, ◌-◌, ◌*◌, ◌/◌, ◌^◌, ◌≤◌, ◌<◌, ◌≡◌, ◌∙◌, [], ◌++◌, arith, Bytes, Str, codes,
  length, append_assoc, append-nil,
}
use native.Mathlib.Nat.{native_laws}
use usebin.Yenc.{YFile, line_max}
use usebin.Yenc.RoundTrip.Encodes.{part_file}
use usebin.Client.Platform.{Platform}
use usebin.Client.Upload.{name_chars, char_at, random_name_rounds, random_name, article}
use usebin.Client.World.{World, returned, random_int}
use usebin.Client.World.Keeps.{bind-returned}
open native_laws use {mul-lt-mul_of_pos_right, mul-le-mul_left}

abbrev pub after_draws : ℕ → World → World
after_draws n w = record w { draws = w.draws + n }

module _ (p : Platform) where
  open p use {random, random-lt}

  -- the i-th number, as an integer below `max`
  abbrev pub drawn : ℕ → ℕ → ℕ
  drawn i max = random i * max / 2 ^ 53

  pub drawn-lt : (i max : ℕ) → 0 < max → drawn i max < max
  drawn-lt i max h = omega (arith, mul-lt-mul_of_pos_right {k = max} (random-lt i) h)

  abbrev pub name_from : ℕ → ℕ → Str
  name_from zero d = []
  name_from (suc n) d = char_at name_chars (drawn d (length name_chars)) ++ name_from n (d + 1)

  pub random_name_rounds_lem :
      (n : ℕ) (name : Str) (w : World)
      → random_name_rounds p n name w ≡ returned (name ++ name_from n w.draws) (after_draws n w)
  unfolding random_name_rounds random_int
  random_name_rounds_lem zero name w = ground (arith, append-nil name)
  random_name_rounds_lem (suc n) name w =
      random_name_rounds_lem n (name ++ char_at name_chars (drawn w.draws 62)) (after_draws 1 w)
      ∙ ground (
        arith,
        append_assoc name (char_at name_chars (drawn w.draws 62)) (name_from n (w.draws + 1)),
      )

  module _ (d : ℕ) (bytes : Bytes) where
    abbrev pub total_at : ℕ
    total_at = 10 + drawn (d + 22) 1000

    abbrev pub part_at : ℕ
    part_at = 1 + drawn (d + 22 + 1) total_at

    abbrev pub size_at : ℕ
    size_at = length bytes * total_at - drawn (d + 22 + 1 + 1) (length bytes)

    abbrev pub begin_at : ℕ
    begin_at = drawn (d + 22 + 1 + 1 + 1) (size_at - length bytes)

    abbrev pub name_at : Str
    name_at = name_from 22 d ++ codes ".rar"

    abbrev pub article_at : YFile
    article_at =
        part_file part_at total_at line_max size_at begin_at (begin_at + length bytes) name_at bytes

    size-gt : 0 < length bytes → length bytes < size_at
    size-gt h = omega (
      arith,
      mul-le-mul_left {m = 10} {n = total_at} (length bytes) (omega arith),
      drawn-lt (d + 22 + 1 + 1) (length bytes) h,
    )

    -- the range lies inside the file
    pub range-le : 0 < length bytes → begin_at + length bytes ≤ size_at
    range-le h =
        let g = size-gt h in
        omega (arith, drawn-lt (d + 22 + 1 + 1 + 1) (size_at - length bytes) (omega arith))

  pub article_lem :
      (bytes : Bytes) (w : World)
      → article p bytes w
        ≡ returned (article_at w.draws bytes) (record w { draws = w.draws + 22 + 1 + 1 + 1 + 1 })
  unfolding article random_name random_int
  article_lem bytes w = bind-returned (random_name p 22) _ w _ _ (random_name_rounds_lem 22 [] w)
