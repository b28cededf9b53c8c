-- ===== src/Yenc/Fuel/Loops.antt =====
-- The loops of `readHeader` and `decodeData`, and `decode` itself: more rounds than the input has
-- bytes change nothing.
use usebin.Base.{
  ℕ, zero, suc, ◌+◌, ◌-◌, ◌≤◌, ◌<◌, ◌≡◌, ◌≢◌, refl, sym, ap, ◌∙◌, Bool, true, false, Option, some,
  [], ◌∷◌, arith, Bytes, length,
}
use usebin.Bytes.{has_prefix}
use usebin.Js.Number.{Number}
use usebin.Yenc.{State, at_start, at_begin, at_escape, at_data, ybegin, ok}
use usebin.Yenc.Libraries.{Libraries}
use usebin.Yenc.Reader.{Decoder, M, ◌>>=◌, ◌>>◌, pure, get_file, reading}
use usebin.Yenc.Reader.Bind.{bind-agree}
use usebin.Yenc.Reader.Shrinks.{Shorter-le, SameState-eq, shorter_rules}
use usebin.Yenc.Header.{
  begin_line, skip_line, header_round, header_loop, check_multipart, read_header,
}
use usebin.Yenc.Trailer.{consume_end}
use usebin.Yenc.Data.{
  Turn, again, return, go_on, while_left, state_round, begin_round, end_round, data_round,
  data_loop, decode_data,
}
use usebin.Yenc.Decode.{decode_within}
use usebin.Yenc.Fuel.Bodies.{Shorter-begin_line, Shorter-read_header}
use usebin.Yenc.Fuel.States.{begin_line-state, SameState-skip_line, read_header-state}
use usebin.Yenc.Fuel.Stages.{
  Agree, Agree-refl, Agree-bind, Agree-if, Agree-begin_line, Agree-consume_end, Agree-after_begin,
}
use usebin.Yenc.Fuel.Progress.{skip_line-lt, data_round-Progress}

begin-ne-start : {s : State} → s ≡ at_begin → s ≢ at_start
begin-ne-start e = λ e'. cc

module _ (lib : Libraries) (seed : Option Number) (n f g : ℕ) (lf : n < f) (lg : n < g) where
  open lib use {Writer}

  -- in `State.Begin` the next round is the last
  last_round-agree :
      (r r' : ℕ) (d : Decoder)
      → d.s ≡ at_begin
      → length d.encoded ≤ n
      → 0 < r
      → 0 < r'
      → header_loop lib seed r f d ≡ header_loop lib seed r' g d
  unfolding header_loop header_round
  last_round-agree zero r' d e h l l' = absurd (omega arith)
  last_round-agree (suc r) zero d e h l l' = absurd (omega arith)
  last_round-agree (suc r) (suc r') d e h l l' =
      ground (arith, (Agree-after_begin n f g lf lg lib seed).at d h)

  begins-agree :
      (r r' : ℕ) (d : Decoder)
      → length d.encoded ≤ n
      → 0 < r
      → 0 < r'
      → (begin_line f >> header_loop lib seed r f) d ≡ (begin_line g >> header_loop lib seed r' g) d
  begins-agree r r' d h l l' =
      bind-agree (begin_line f) (begin_line g) (λ _. header_loop lib seed r f)
        (λ _. header_loop lib seed r' g) d ((Agree-begin_line n f g lf lg).at d h)
        λ a d1 e1.
          last_round-agree r r' d1 (begin_line-state f d d1 a e1)
            (let s = Shorter-le d d1 ((Shorter-begin_line f).at d d1 a e1) in omega arith) l l'

  round-agree :
      (starts : Bool) (more more' : M (Unit {0})) (d : Decoder)
      → (begin_line f >> more) d ≡ (begin_line g >> more') d
      → (skip_line >> more) d ≡ (skip_line >> more') d
      → header_round lib seed at_start starts f more d
        ≡ header_round lib seed at_start starts g more' d
  unfolding header_round
  round-agree true more more' d b s = b
  round-agree false more more' d b s = s

  header_loop-agree :
      (k r r' : ℕ) (d : Decoder)
      → d.s ≡ at_start
      → length d.encoded ≤ k
      → k ≤ n
      → k + 1 < r
      → k + 1 < r'
      → header_loop lib seed r f d ≡ header_loop lib seed r' g d
  unfolding header_loop
  header_loop-agree k zero r' d e h hk l l' = absurd (omega arith)
  header_loop-agree k (suc r) zero d e h hk l l' = absurd (omega arith)
  header_loop-agree k (suc r) (suc r') d e h hk l l' =
      let starts = has_prefix d.encoded ybegin in
      ap (λ s. header_round lib seed s starts f (header_loop lib seed r f) d) e
      ∙ round-agree starts (header_loop lib seed r f) (header_loop lib seed r' g) d
          (begins-agree r r' d (omega arith) (omega arith) (omega arith))
          (bind-agree skip_line skip_line (λ _. header_loop lib seed r f)
            (λ _. header_loop lib seed r' g) d refl
            λ a d1 e1.
              header_loop-agree (k - 1) r r' d1
                (SameState-eq d d1 (SameState-skip_line.at d d1 a e1) ∙ e)
                (let s = skip_line-lt d d1 a e1 in omega arith) (omega arith)
                (let s = skip_line-lt d d1 a e1 in omega arith)
                (let s = skip_line-lt d d1 a e1 in omega arith))
      ∙ ap (λ s. header_round lib seed s starts g (header_loop lib seed r' g) d) (sym e)

  Agree-end_round : (w : Writer) → Agree n (end_round lib seed f w) (end_round lib seed g w)
  unfolding end_round
  Agree-end_round w = record {
    at = λ d h.
        let d1 = record d { file = record d.file { content = some (lib.finish w) } } in
        bind-agree (consume_end lib seed f) (consume_end lib seed g) (λ _. pure return)
          (λ _. pure return) d1 ((Agree-consume_end n f g lf lg lib seed).at d1 h) λ u d2 e. refl;
  }

  Agree-begin_round : (w : Writer) → Agree n (begin_round lib seed f w) (begin_round lib seed g w)
  unfolding begin_round
  Agree-begin_round w =
      search (Agree-bind, Agree-if, Agree-end_round, shorter_rules, Agree-refl) depth 12

  Agree-state_round :
      (s : State) (w : Writer) → Agree n (state_round lib seed s f w) (state_round lib seed s g w)
  unfolding state_round
  Agree-state_round at_start w = search Agree-refl
  Agree-state_round at_data w = search Agree-refl
  Agree-state_round at_escape w = search Agree-refl
  Agree-state_round at_begin w = Agree-begin_round w

  Agree-data_round : (w : Writer) → Agree n (data_round lib seed f w) (data_round lib seed g w)
  unfolding data_round
  Agree-data_round w = search (Agree-bind, Agree-state_round, shorter_rules, Agree-refl) depth 12

  go_on-agree :
      (more more' : Writer → M (Unit {0})) (turn : Turn Writer) (d : Decoder)
      → ((w : Writer) → turn ≡ again w → more w d ≡ more' w d)
      → go_on more turn d ≡ go_on more' turn d
  go_on-agree more more' (again w) d h = h w refl
  go_on-agree more more' return d h = refl

  while_left-agree :
      (more more' : M (Unit {0})) (d : Decoder)
      → (0 < length d.encoded → more d ≡ more' d)
      → while_left d.encoded more d ≡ while_left d.encoded more' d
  while_left-agree more more' d h = by_bytes d.encoded h
    where
      by_bytes :
          (bs : Bytes)
          → (0 < length bs → more d ≡ more' d)
          → while_left bs more d ≡ while_left bs more' d
      by_bytes [] h = refl
      by_bytes (b ∷ bs) h = h (omega arith)

  data_loop-agree :
      (k r r' : ℕ) (w : Writer) (d : Decoder)
      → d.s ≢ at_start
      → length d.encoded ≤ k
      → k ≤ n
      → k < r
      → k < r'
      → data_loop lib seed r f w d ≡ data_loop lib seed r' g w d
  unfolding data_loop
  data_loop-agree k zero r' w d e h hk l l' = absurd (omega arith)
  data_loop-agree k (suc r) zero w d e h hk l l' = absurd (omega arith)
  data_loop-agree k (suc r) (suc r') w d e h hk l l' =
      while_left-agree (data_round lib seed f w >>= go_on (data_loop lib seed r f))
        (data_round lib seed g w >>= go_on (data_loop lib seed r' g)) d
        λ left.
          bind-agree (data_round lib seed f w) (data_round lib seed g w)
            (go_on (data_loop lib seed r f)) (go_on (data_loop lib seed r' g)) d
            ((Agree-data_round w).at d (omega arith))
            λ turn d1 e1.
              go_on-agree (data_loop lib seed r f) (data_loop lib seed r' g) turn d1 λ w' again_w.
                let p =
                  data_round-Progress lib seed f w w' d d1 e (e1 ∙ ap (λ t. ok (t, d1)) again_w) in
                data_loop-agree (k - 1) r r' w' d1 p.under_way (omega (arith, p.fewer))
                  (omega arith) (omega arith) (omega arith)

  -- all of `decode`, from its first state
  pub stages-agree :
      (r r' : ℕ) (start : Decoder)
      → start.s ≡ at_start
      → length start.encoded ≤ n
      → n + 1 < r
      → n + 1 < r'
      → ((header_loop lib seed r f >> check_multipart) >> (decode_data lib seed f >> get_file))
          start
        ≡ ((header_loop lib seed r' g >> check_multipart) >> (decode_data lib seed g >> get_file))
            start
  unfolding decode_data
  stages-agree r r' start e h l l' =
      bind-agree (header_loop lib seed r f >> check_multipart)
        (header_loop lib seed r' g >> check_multipart) (λ _. decode_data lib seed f >> get_file)
        (λ _. decode_data lib seed g >> get_file) start
        (bind-agree (header_loop lib seed r f) (header_loop lib seed r' g) (λ _. check_multipart)
          (λ _. check_multipart) start (header_loop-agree n r r' start e h (omega arith) l l')
          λ a d1 e1. refl)
        λ a d1 e1.
          bind-agree (decode_data lib seed f) (decode_data lib seed g) (λ _. get_file)
            (λ _. get_file) d1
            (data_loop-agree n f g lib.new_writer d1
              (begin-ne-start (read_header-state lib seed r f start d1 a e1))
              (let s = Shorter-le start d1 ((Shorter-read_header lib seed f r).at start d1 a e1) in
                omega arith)
              (omega arith) (omega arith) (omega arith))
            λ u d2 e2. refl

module _ (lib : Libraries) (seed : Option Number) (encoded : Bytes) where
  -- The bound that `decode` uses, the length of the input plus two, decides the outcome: under any
  -- larger bound on the rounds of its loops `decode` has the same outcome.
  pub decode_within-larger :
      (more : ℕ)
      → decode_within lib seed (length encoded + 2 + more) encoded
        ≡ decode_within lib seed (length encoded + 2) encoded
  unfolding decode_within read_header
  decode_within-larger more =
      let n = length encoded in
      stages-agree lib seed n (n + 2 + more) (n + 2) (omega arith) (omega arith) (n + 2 + more)
        (n + 2) (reading encoded) refl (omega arith) (omega arith) (omega arith)
