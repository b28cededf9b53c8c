-- ===== src/Yenc/RoundTrip/Steps.antt =====
-- Single rounds of the loop of `decodeData` on input of a known shape.
use usebin.Base.{
  ℕ, suc, ◌≡◌, ◌≢◌, refl, sym, ap, ◌∙◌, Bool, true, false, ◌⊎◌, Option, some, not, [], ◌∷◌, ◌++◌,
  ◌==◌, if◌then◌else◌, arith, Bytes, init-concat, last?-concat,
}
use usebin.Bytes.Prefix.{starts_with, has_prefix-starts_with}
use usebin.Js.Number.{Number}
use usebin.Yenc.{
  YFile, State, at_start, at_begin, at_escape, at_data, Outcome, ok, byte_add, minus_106, yend,
  match_eq_crlf, match_not_crlf,
}
use usebin.Yenc.Libraries.{Libraries}
use usebin.Yenc.Reader.{Decoder, advance_to}
use usebin.Yenc.Reader.Bind.{then_do}
use usebin.Yenc.Reader.Cuts.{
  until_at, from_at, advance_to-until, advance_to-through, Misses, through_at, behind_at,
  advance_lem,
}
use usebin.Yenc.Data.{
  again, go_on, write_plain, after_token, plain_round, escape_round, end_round, begin_round,
  state_round, data_round, data_loop,
}

-- the state behind a token
abbrev pub state_behind : ℕ → State
state_behind c = if c == 0x3d then at_escape else at_begin

-- the states in which data is read, on a text that is not the trailer
abbrev pub reads_plain : State → Bytes → Bool
reads_plain at_start text = false
reads_plain at_begin text = not (starts_with yend text)
reads_plain at_data text = true
reads_plain at_escape text = false

abbrev pub at_text : YFile → State → Bytes → Decoder
at_text file st text = record { encoded = text; s = st; file = file }

module _ (lib : Libraries) (seed : Option Number) (fuel : ℕ) (file : YFile) where
  after_token_lem :
      (t : ℕ) (w : lib.Writer) (st : State) (rest : Bytes)
      → match_eq_crlf t ≡ true
      → after_token lib (some t) w (at_text file st rest)
        ≡ ok (again w, at_text file (state_behind t) rest)
  unfolding after_token
  after_token_lem t w st rest h = ground arith

  -- in `State.Begin` and `State.Data`, on bytes that are not escaped up to one that ends a token
  plain_round_lem :
      (st : State) (p : Bytes) (t : ℕ) (rest : Bytes) (w : lib.Writer)
      → Misses match_eq_crlf p
      → match_eq_crlf t ≡ true
      → plain_round lib w (at_text file st (p ++ t ∷ rest))
        ≡ ok (again (write_plain lib p w), at_text file (state_behind t) rest)
  unfolding plain_round
  plain_round_lem st p t rest w m h =
      ap (then_do _) (advance_to-through match_eq_crlf (at_text file st (p ++ t ∷ rest)))
      ∙ rw
          (
            through_at match_eq_crlf p t rest m h,
            behind_at match_eq_crlf p t rest m h,
            last?-concat p t,
            init-concat p t,
          )
          (after_token_lem t (write_plain lib p w) st rest h)

  state_round_lem :
      (st : State) (p : Bytes) (t : ℕ) (rest : Bytes) (w : lib.Writer)
      → Misses match_eq_crlf p
      → match_eq_crlf t ≡ true
      → reads_plain st (p ++ t ∷ rest) ≡ true
      → state_round lib seed st fuel w (at_text file st (p ++ t ∷ rest))
        ≡ ok (again (write_plain lib p w), at_text file (state_behind t) rest)
  unfolding state_round begin_round
  state_round_lem at_start p t rest w m h r = cc
  state_round_lem at_begin p t rest w m h r =
      ap
        (λ b.
          (if b then end_round lib seed fuel w else plain_round lib w)
            (at_text file at_begin (p ++ t ∷ rest)))
        (has_prefix-starts_with (p ++ t ∷ rest) yend
          ∙ not_true (starts_with yend (p ++ t ∷ rest)) r)
      ∙ plain_round_lem at_begin p t rest w m h
    where
      not_true : (b : Bool) → not b ≡ true → b ≡ false
      not_true b e = ground arith
  state_round_lem at_data p t rest w m h r = plain_round_lem at_data p t rest w m h
  state_round_lem at_escape p t rest w m h r = cc

  -- line breaks before a text are skipped
  pub skip_breaks :
      (st : State) (breaks : Bytes) (c : ℕ) (cs : Bytes)
      → Misses match_not_crlf breaks
      → match_not_crlf c ≡ true
      → advance_to match_not_crlf true (at_text file st (breaks ++ c ∷ cs))
        ≡ ok (breaks, at_text file st (c ∷ cs))
  skip_breaks st breaks c cs m h =
      advance_to-until match_not_crlf (at_text file st (breaks ++ c ∷ cs))
      ∙ rw (until_at match_not_crlf breaks c cs m h, from_at match_not_crlf breaks c cs m h) refl

  -- what a round leads to, behind the line breaks
  abbrev behind_breaks : ℕ → lib.Writer → Outcome (Bytes × Decoder) → Outcome (Unit {0} × Decoder)
  behind_breaks n w o =
      then_do (go_on (data_loop lib seed n fuel))
        (then_do (λ _ d. state_round lib seed d.s fuel w d) o)

  -- the loop on a text that does not begin with a line break
  pub data_loop_lem :
      (n : ℕ) (st : State) (c : ℕ) (cs : Bytes) (w : lib.Writer)
      → match_not_crlf c ≡ true
      → data_loop lib seed (suc n) fuel w (at_text file st (c ∷ cs))
        ≡ then_do
            (go_on (data_loop lib seed n fuel))
            (state_round lib seed st fuel w (at_text file st (c ∷ cs)))
  unfolding data_loop data_round
  data_loop_lem n st c cs w h = ap (behind_breaks n w) (skip_breaks st [] c cs tt h)

  -- and on one that begins with one
  pub data_loop-break :
      (n : ℕ) (st : State) (c : ℕ) (cs : Bytes) (w : lib.Writer)
      → match_not_crlf c ≡ true
      → data_loop lib seed (suc n) fuel w (at_text file st (10 ∷ c ∷ cs))
        ≡ data_loop lib seed (suc n) fuel w (at_text file st (c ∷ cs))
  unfolding data_loop data_round
  data_loop-break n st c cs w h =
      ap (behind_breaks n w) (skip_breaks st (10 ∷ []) c cs (refl, tt) h)
      ∙ sym (ap (behind_breaks n w) (skip_breaks st [] c cs tt h))

  -- a round that reads the bytes up to one that ends a token, which is `=` where there are none
  pub data_loop-token :
      (n : ℕ) (st : State) (p : Bytes) (t : ℕ) (rest : Bytes) (w : lib.Writer)
      → Misses match_eq_crlf p
      → match_eq_crlf t ≡ true
      → reads_plain st (p ++ t ∷ rest) ≡ true
      → (p ≢ []) ⊎ (t ≡ 0x3d)
      → data_loop lib seed (suc n) fuel w (at_text file st (p ++ t ∷ rest))
        ≡ data_loop lib seed n fuel (write_plain lib p w) (at_text file (state_behind t) rest)
  data_loop-token n st [] t rest w m h r solid =
      data_loop_lem n st t rest w (ground arith)
      ∙ ap (then_do (go_on (data_loop lib seed n fuel))) (state_round_lem st [] t rest w m h r)
  data_loop-token n st (c ∷ p) t rest w m h r solid =
      data_loop_lem n st c (p ++ t ∷ rest) w (ground arith)
      ∙ ap (then_do (go_on (data_loop lib seed n fuel))) (state_round_lem st (c ∷ p) t rest w m h r)

  -- a round that reads an escaped byte
  pub data_loop-escaped :
      (n : ℕ) (c : ℕ) (rest : Bytes) (w : lib.Writer)
      → match_not_crlf c ≡ true
      → data_loop lib seed (suc n) fuel w (at_text file at_escape (c ∷ rest))
        ≡ data_loop lib seed n fuel
            (lib.write_byte w (byte_add c minus_106))
            (at_text file at_data rest)
  unfolding state_round escape_round
  data_loop-escaped n c rest w h =
      data_loop_lem n at_escape c rest w h
      ∙ ap
          (λ o. then_do (go_on (data_loop lib seed n fuel)) (
            then_do
              (λ _ d.
                ok (again (lib.write_byte w (byte_add c minus_106)), record d { s = at_data }))
              o))
          (advance_lem (c ∷ []) rest (at_text file at_escape (c ∷ rest)) refl)
