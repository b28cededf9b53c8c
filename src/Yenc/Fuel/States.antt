-- ===== src/Yenc/Fuel/States.antt =====
-- The state between the stages of `decode`: the keyword lines leave `s` as it is, and behind
-- `readHeader` it is `State.Begin`.
use usebin.Base.{ℕ, zero, suc, ◌≡◌, refl, ◌∙◌, Bool, true, false, Option, none, some, arith}
use usebin.Bytes.{has_prefix}
use usebin.Js.Number.{Number}
use usebin.Yenc.{State, at_start, at_begin, at_escape, at_data, ok, ybegin}
use usebin.Yenc.Libraries.{Libraries}
use usebin.Yenc.Reader.{Decoder, M, Arg, ◌>>◌}
use usebin.Yenc.Reader.Bind.{bind-eq-ok}
use usebin.Yenc.Reader.Keeps.{Keeps, Keeps-arguments}
use usebin.Yenc.Reader.Shrinks.{SameState, SameState-eq, SameState-preorder, same_state_rules}
use usebin.Yenc.Header.{
  begin_line, part_argument, check_part, consume_part, skip_past, skip_line, at_keyword,
  after_begin, header_round, header_loop, check_multipart,
}
use usebin.Yenc.Trailer.{end_argument, consume_end}

SameState-end_argument : (crc : ℕ) (arg : Arg) (l : Bool) → Keeps SameState (end_argument crc arg l)
unfolding end_argument
SameState-end_argument crc arg l = search same_state_rules depth 12

SameState-part_argument : (arg : Arg) (l : Unit {0}) → Keeps SameState (part_argument arg l)
unfolding part_argument
SameState-part_argument arg l = search same_state_rules depth 12

SameState-check_part : Keeps SameState check_part
unfolding check_part
SameState-check_part = search same_state_rules depth 16

SameState-consume_part : (fuel : ℕ) → Keeps SameState (consume_part fuel)
unfolding consume_part
SameState-consume_part fuel = search (
  same_state_rules,
  SameState-check_part,
  Keeps-arguments SameState-preorder _ _ SameState-part_argument,
)

SameState-skip_past : (i : Option ℕ) → Keeps SameState (skip_past i)
unfolding skip_past
SameState-skip_past none = search same_state_rules
SameState-skip_past (some i) = search same_state_rules

pub SameState-skip_line : Keeps SameState skip_line
unfolding skip_line
SameState-skip_line = search (same_state_rules, SameState-skip_past)

pub begin_line-state :
    (fuel : ℕ) (d d' : Decoder) (a : Unit {0}) → begin_line fuel d ≡ ok (a, d') → d'.s ≡ at_begin
unfolding begin_line
begin_line-state fuel d d' a e = ground arith

module _ (lib : Libraries) (seed : Option Number) where
  pub SameState-consume_end : (fuel : ℕ) → Keeps SameState (consume_end lib seed fuel)
  unfolding consume_end
  SameState-consume_end fuel =
      search
        (
          same_state_rules,
          λ (crc : ℕ).
              Keeps-arguments SameState-preorder none (end_argument crc)
                (SameState-end_argument crc),
        )
        depth 12

  SameState-at_keyword : (fuel : ℕ) → Keeps SameState (at_keyword lib seed fuel)
  unfolding at_keyword
  SameState-at_keyword fuel =
      search (same_state_rules, SameState-consume_part, SameState-consume_end) depth 12

  SameState-after_begin : (fuel : ℕ) → Keeps SameState (after_begin lib seed fuel)
  unfolding after_begin
  SameState-after_begin fuel = search (same_state_rules, SameState-at_keyword)

  -- A round goes on from a state that it keeps or from `State.Begin`, or is the last one.
  header_round-state :
      (s : State) (starts : Bool) (fuel : ℕ) (more : M (Unit {0})) (d d' : Decoder) (a : Unit {0})
      → d.s ≡ s
      → ((e : Decoder) → more e ≡ ok (a, d') → d'.s ≡ at_begin)
      → header_round lib seed s starts fuel more d ≡ ok (a, d')
      → d'.s ≡ at_begin
  unfolding header_round
  header_round-state at_start true fuel more d d' a s h e =
      let (_, d1, e1, e2) = bind-eq-ok (begin_line fuel) (λ _. more) d d' a e in h d1 e2
  header_round-state at_start false fuel more d d' a s h e =
      let (_, d1, e1, e2) = bind-eq-ok skip_line (λ _. more) d d' a e in h d1 e2
  header_round-state at_begin starts fuel more d d' a s h e =
      SameState-eq d d' ((SameState-after_begin fuel).at d d' a e) ∙ s
  header_round-state at_escape starts fuel more d d' a s h e = h d e
  header_round-state at_data starts fuel more d d' a s h e = h d e

  header_loop-state :
      (rounds fuel : ℕ) (d d' : Decoder) (a : Unit {0})
      → header_loop lib seed rounds fuel d ≡ ok (a, d')
      → d'.s ≡ at_begin
  unfolding header_loop
  header_loop-state zero fuel d d' a e = cc
  header_loop-state (suc rounds) fuel d d' a e =
      header_round-state d.s (has_prefix d.encoded ybegin) fuel (header_loop lib seed rounds fuel) d
        d' a refl (λ e'. header_loop-state rounds fuel e' d' a) e

  -- `decodeData` starts in `State.Begin`.
  pub read_header-state :
      (rounds fuel : ℕ) (d d' : Decoder) (a : Unit {0})
      → (header_loop lib seed rounds fuel >> check_multipart) d ≡ ok (a, d')
      → d'.s ≡ at_begin
  read_header-state rounds fuel d d' a e =
      let (b, d1, e1, e2) =
        bind-eq-ok (header_loop lib seed rounds fuel) (λ _. check_multipart) d d' a e in
      let same : Keeps SameState check_multipart = search same_state_rules in
      SameState-eq d1 d' (same.at d1 d' a e2) ∙ header_loop-state rounds fuel d d1 b e1
