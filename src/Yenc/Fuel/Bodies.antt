-- ===== src/Yenc/Fuel/Bodies.antt =====
-- The bodies of the three argument loops take no byte, and what comes before and behind those loops
-- takes none back.
use usebin.Base.{ℕ, zero, suc, refl, Bool, true, false, Option, none, some}
use usebin.Js.Number.{Number}
use usebin.Yenc.{State, at_start, at_begin, at_escape, at_data}
use usebin.Yenc.Libraries.{Libraries}
use usebin.Yenc.Reader.{M, ◌>>◌}
use usebin.Yenc.Reader.Keeps.{Keeps, Keeps-arguments}
use usebin.Yenc.Reader.Shrinks.{Shorter, Shorter-preorder, shorter_rules}
use usebin.Yenc.Header.{
  set_field, begin_argument, begin_line, part_argument, check_part, consume_part, skip_past,
  skip_line, at_keyword, after_begin, header_round, header_loop, check_multipart,
}
use usebin.Yenc.Trailer.{end_argument, consume_end}
use usebin.Yenc.Fuel.Arguments.{Quiet}

pub Quiet-end_argument : (crc : ℕ) → Quiet (end_argument crc)
unfolding end_argument
Quiet-end_argument crc = record {
  shrinks = λ arg l. search shorter_rules depth 12;
  idles = λ l d. refl;
}

pub Quiet-begin_argument : Quiet begin_argument
unfolding begin_argument set_field
Quiet-begin_argument = record { shrinks = λ arg l. search shorter_rules; idles = λ l d. refl }

pub Quiet-part_argument : Quiet part_argument
unfolding part_argument
Quiet-part_argument = record {
  shrinks = λ arg l. search shorter_rules depth 12;
  idles = λ l d. refl;
}

pub Shorter-check_part : Keeps Shorter check_part
unfolding check_part
Shorter-check_part = search shorter_rules depth 16

pub Shorter-consume_part : (fuel : ℕ) → Keeps Shorter (consume_part fuel)
unfolding consume_part
Shorter-consume_part fuel = search (
  shorter_rules,
  Shorter-check_part,
  Keeps-arguments Shorter-preorder _ _ Quiet-part_argument.shrinks,
)

pub Shorter-begin_line : (fuel : ℕ) → Keeps Shorter (begin_line fuel)
unfolding begin_line
Shorter-begin_line fuel =
    search (shorter_rules, Keeps-arguments Shorter-preorder _ _ Quiet-begin_argument.shrinks) depth
      12

Shorter-skip_past : (i : Option ℕ) → Keeps Shorter (skip_past i)
unfolding skip_past
Shorter-skip_past none = search shorter_rules
Shorter-skip_past (some i) = search shorter_rules

Shorter-skip_line : Keeps Shorter skip_line
unfolding skip_line
Shorter-skip_line = search (shorter_rules, Shorter-skip_past)

module _ (lib : Libraries) (seed : Option Number) (fuel : ℕ) where
  pub Shorter-consume_end : Keeps Shorter (consume_end lib seed fuel)
  unfolding consume_end
  Shorter-consume_end =
      search
        (
          shorter_rules,
          λ (crc : ℕ).
              Keeps-arguments Shorter-preorder none (end_argument crc)
                (Quiet-end_argument crc).shrinks,
        )
        depth 12

  Shorter-at_keyword : Keeps Shorter (at_keyword lib seed fuel)
  unfolding at_keyword
  Shorter-at_keyword = search (shorter_rules, Shorter-consume_part, Shorter-consume_end) depth 12

  Shorter-after_begin : Keeps Shorter (after_begin lib seed fuel)
  unfolding after_begin
  Shorter-after_begin = search (shorter_rules, Shorter-at_keyword)

  Shorter-header_round :
      (s : State) (starts : Bool) (more : M (Unit {0}))
      → Keeps Shorter more
      → Keeps Shorter (header_round lib seed s starts fuel more)
  unfolding header_round
  Shorter-header_round at_start true more k = search (shorter_rules, Shorter-begin_line)
  Shorter-header_round at_start false more k = search (shorter_rules, Shorter-skip_line)
  Shorter-header_round at_begin starts more k = Shorter-after_begin
  Shorter-header_round at_escape starts more k = k
  Shorter-header_round at_data starts more k = k

  Shorter-header_loop : (rounds : ℕ) → Keeps Shorter (header_loop lib seed rounds fuel)
  unfolding header_loop
  Shorter-header_loop zero = record { at = λ d d' a e. cc }
  Shorter-header_loop (suc rounds) = search (
    shorter_rules,
    λ (s : State). λ (b : Bool).
        Shorter-header_round s b (header_loop lib seed rounds fuel) (Shorter-header_loop rounds),
  )

  pub Shorter-read_header :
      (rounds : ℕ) → Keeps Shorter (header_loop lib seed rounds fuel >> check_multipart)
  Shorter-read_header rounds = search (shorter_rules, Shorter-header_loop)
