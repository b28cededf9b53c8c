-- ===== src/Yenc/Fuel/Progress.antt =====
-- Each round of the loops of `readHeader` and `decodeData` that goes on takes a byte off the input.
use usebin.Base.{
  ℕ, ◌+◌, ◌-◌, ◌≤◌, ◌<◌, ◌≡◌, ◌≢◌, refl, sym, ap, ◌∙◌, Bool, Option, none, some, false, find_index,
  arith, Bytes, length, length-drop, init, last?, if◌then◌else◌, Bool-cases, inl, inr,
}
use usebin.Bytes.{has_prefix}
use usebin.Js.Number.{Number}
use usebin.Yenc.{
  State, at_start, at_begin, at_escape, at_data, ok, yend, match_crlf, match_eq_crlf,
  match_not_crlf,
}
use usebin.Yenc.Libraries.{Libraries}
use usebin.Yenc.Reader.{Decoder, ◌>>◌, pure, set_state, advance, advance_to}
use usebin.Yenc.Reader.Bind.{then_do, bind-eq-ok}
use usebin.Yenc.Reader.Cuts.{from, advance_to-until, advance_to-through, length-from, length-behind}
use usebin.Yenc.Header.{skip_past, skip_line}
use usebin.Yenc.Trailer.{consume_end}
use usebin.Yenc.Data.{
  again, return, write_plain, after_token, plain_round, escaped_byte, escape_round, end_round,
  begin_round, state_round, data_round,
}

advance-length :
    (n : ℕ) (d d' : Decoder) (a : Bytes)
    → advance n d ≡ ok (a, d')
    → length d'.encoded + n ≡ length d.encoded
unfolding advance
advance-length n d d' a e = ground (arith, length-drop n d.encoded)

skip_past-lt :
    (i : Option ℕ) (d d' : Decoder) (a : Unit {0})
    → skip_past i d ≡ ok (a, d')
    → length d'.encoded < length d.encoded
unfolding skip_past
skip_past-lt none d d' a e = cc
skip_past-lt (some i) d d' a e =
    let (b, d1, e1, e2) = bind-eq-ok (advance (i + 1)) (λ _. pure tt) d d' a e in
    let l = advance-length (i + 1) d d1 b e1 in ground arith

pub skip_line-lt :
    (d d' : Decoder) (a : Unit {0})
    → skip_line d ≡ ok (a, d')
    → length d'.encoded < length d.encoded
unfolding skip_line
skip_line-lt d d' a e = skip_past-lt (find_index match_crlf d.encoded) d d' a e

-- A round of `decodeData` that goes on.
pub record Progress (d d' : Decoder) : Type 0 where
  pub fewer : length d'.encoded ≤ length d.encoded - 1
  pub under_way : d'.s ≢ at_start

module _ (lib : Libraries) where
  open lib use {Writer, write_byte}

  after_token-Progress :
      (c : Option ℕ) (w w' : Writer) (d e d' : Decoder)
      → length e.encoded ≤ length d.encoded - 1
      → after_token lib c w e ≡ ok (again w', d')
      → Progress d d'
  unfolding after_token
  after_token-Progress none w w' d e d' l h = cc
  after_token-Progress (some c) w w' d e d' l h = ground arith

  plain_round-Progress :
      (w w' : Writer) (d d' : Decoder) → plain_round lib w d ≡ ok (again w', d') → Progress d d'
  unfolding plain_round
  plain_round-Progress w w' d d' h =
      let (token, e, e1, e2) =
        bind-eq-ok (advance_to match_eq_crlf false)
          (λ token. after_token lib (last? token) (write_plain lib (init token) w)) d d' (again w')
          h in
      after_token-Progress (last? token) (write_plain lib (init token) w) w' d e d'
        (ground (arith, advance_to-through match_eq_crlf d, length-behind match_eq_crlf d.encoded))
        e2

  escape_round-Progress :
      (w w' : Writer) (d d' : Decoder) → escape_round lib w d ≡ ok (again w', d') → Progress d d'
  unfolding escape_round
  escape_round-Progress w w' d d' h =
      let then_write =
        λ (a : Bytes). set_state at_data >> pure (again (write_byte w (escaped_byte d.encoded))) in
      let (a, e, e1, e2) = bind-eq-ok (advance 1) then_write d d' (again w') h in
      let l = advance-length 1 d e a e1 in ground arith

module _ (lib : Libraries) (seed : Option Number) (fuel : ℕ) where
  open lib use {Writer, finish}

  end_round-ends :
      (w w' : Writer) (d d' : Decoder) → end_round lib seed fuel w d ≢ ok (again w', d')
  unfolding end_round
  end_round-ends w w' d d' h =
      let ended = record d { file = record d.file { content = some (finish w) } } in
      let (u, e, e1, e2) =
        bind-eq-ok (consume_end lib seed fuel) (λ _. pure return) ended d' (again w') h in
      cc

  begin_round-Progress :
      (w w' : Writer) (d d' : Decoder)
      → begin_round lib seed fuel w d ≡ ok (again w', d')
      → Progress d d'
  unfolding begin_round
  begin_round-Progress w w' d d' h = elim (Bool-cases (has_prefix d.encoded yend)) [
    | inl e ↦ absurd (end_round-ends w w' d d' (choose e ∙ h))
    | inr e ↦ plain_round-Progress lib w w' d d' (choose e ∙ h)
  ]
    where
      choose :
          {b : Bool}
          → has_prefix d.encoded yend ≡ b
          → (if b then end_round lib seed fuel w else plain_round lib w) d
            ≡ (if has_prefix d.encoded yend then end_round lib seed fuel w else plain_round lib w) d
      choose e = ap (λ b. (if b then end_round lib seed fuel w else plain_round lib w) d) (sym e)

  state_round-Progress :
      (s : State) (w w' : Writer) (d d' : Decoder)
      → s ≢ at_start
      → state_round lib seed s fuel w d ≡ ok (again w', d')
      → Progress d d'
  unfolding state_round
  state_round-Progress at_start w w' d d' ne h = absurd (ne refl)
  state_round-Progress at_begin w w' d d' ne h = begin_round-Progress w w' d d' h
  state_round-Progress at_escape w w' d d' ne h = escape_round-Progress lib w w' d d' h
  state_round-Progress at_data w w' d d' ne h = plain_round-Progress lib w w' d d' h

  pub data_round-Progress :
      (w w' : Writer) (d d' : Decoder)
      → d.s ≢ at_start
      → data_round lib seed fuel w d ≡ ok (again w', d')
      → Progress d d'
  unfolding data_round
  data_round-Progress w w' d d' ne h =
      let d1 = record d { encoded = from match_not_crlf d.encoded } in
      let p =
        state_round-Progress d.s w w' d1 d' ne
          (sym (ap (then_do _) (advance_to-until match_not_crlf d)) ∙ h) in
      let l = length-from match_not_crlf d.encoded in ground arith
