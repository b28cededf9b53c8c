-- ===== src/Yenc/Fuel/Arguments.antt =====
-- The loops over the arguments of a keyword line: more rounds than bytes change nothing, and at the
-- end of the input the loop goes on for ever.
use usebin.Base.{
  ℕ, zero, suc, ◌≤◌, ◌<◌, ◌≡◌, refl, ap, sym, ◌∙◌, Bool, true, false, Option, [], ◌∷◌, arith, Bytes,
  Str, length,
}
use usebin.Yenc.{ok, spin}
use usebin.Yenc.Reader.{Decoder, M, ◌>>=◌, Arg, read_argument, next, arguments}
use usebin.Yenc.Reader.Bind.{then_do, bind-agree}
use usebin.Yenc.Reader.Argument.{
  read_argument_lem, length-rest_of, rest_of, arg_of, no_arg, arg_of_end,
}
use usebin.Yenc.Reader.Keeps.{Keeps}
use usebin.Yenc.Reader.Shrinks.{Shorter, Shorter-le}

-- A body that only looks at its argument: it takes no byte, and does nothing without a key.
pub record Quiet {L : Type 0} (body : Arg → L → M L) : Type 0 where
  pub shrinks : (arg : Arg) (l : L) → Keeps Shorter (body arg l)
  pub idles : (l : L) (d : Decoder) → body no_arg l d ≡ ok (l, d)

nil_of_length : (bs : Bytes) → length bs ≤ 0 → bs ≡ []
nil_of_length [] h = refl
nil_of_length (b ∷ bs) h = absurd (omega arith)

next-agree :
    {L : Type 0} (at_eol : Bool) (l : L) (more more' : M L) (d : Decoder)
    → more d ≡ more' d
    → next at_eol l more d ≡ next at_eol l more' d
next-agree true l more more' d h = refl
next-agree false l more more' d h = h

module _ {L : Type 0} (read_to_eol : Option (Str → Bool)) (body : Arg → L → M L) where
  -- what a round does behind its argument
  abbrev turn : (L → M L) → L → Arg → M L
  turn more l arg = body arg l >>= λ l'. next arg.at_eol l' (more l')

  -- At the end of the input no number of rounds is enough.
  pub arguments_at_end :
      Quiet body
      → (fuel : ℕ) (l : L) (d : Decoder) → d.encoded ≡ []
      → arguments fuel read_to_eol body l d ≡ spin
  unfolding arguments
  arguments_at_end q zero l d e = refl
  arguments_at_end q (suc fuel) l d e =
      let d1 = record d { encoded = rest_of read_to_eol d.encoded } in
      let read = read_argument_lem read_to_eol d in
      let blank : arg_of read_to_eol d.encoded ≡ no_arg =
        ap (arg_of read_to_eol) e ∙ arg_of_end read_to_eol in
      ap (then_do _) (rw blank at read)
      ∙ ap (then_do _) (q.idles l d1)
      ∙ arguments_at_end q fuel l d1 (
          nil_of_length _ (
            let b = length-rest_of read_to_eol d.encoded in
            let e' : length d.encoded ≡ 0 = ap length e in omega arith))

  turn-agree :
      (more more' : L → M L) (l : L) (arg : Arg) (d : Decoder)
      → ((l' : L) (d' : Decoder) → body arg l d ≡ ok (l', d') → more l' d' ≡ more' l' d')
      → turn more l arg d ≡ turn more' l arg d
  turn-agree more more' l arg d h =
      bind-agree (body arg l) (body arg l) (λ l'. next arg.at_eol l' (more l'))
        (λ l'. next arg.at_eol l' (more' l')) d refl
        λ l' d' e. next-agree arg.at_eol l' (more l') (more' l') d' (h l' d' e)

  -- Beyond the number of bytes left, the bound on the rounds makes no difference.
  pub arguments-agree :
      Quiet body
      → (n f g : ℕ) (l : L) (d : Decoder) → length d.encoded ≤ n
      → n < f
      → n < g
      → arguments f read_to_eol body l d ≡ arguments g read_to_eol body l d
  unfolding arguments
  arguments-agree q zero f g l d h lf lg =
      let e = nil_of_length d.encoded h in
      arguments_at_end q f l d e ∙ sym (arguments_at_end q g l d e)
  arguments-agree q (suc n) zero g l d h lf lg = absurd (omega arith)
  arguments-agree q (suc n) (suc f) zero l d h lf lg = absurd (omega arith)
  arguments-agree q (suc n) (suc f) (suc g) l d h lf lg =
      let more = λ (k : ℕ) (l' : L). arguments k read_to_eol body l' in
      bind-agree (read_argument read_to_eol) (read_argument read_to_eol) (turn (more f) l)
        (turn (more g) l) d refl
        λ arg d1 e1. turn-agree (more f) (more g) l arg d1 λ l' d2 e2.
          arguments-agree q n f g l' d2
            (let s1 = length-rest_of read_to_eol d.encoded in
              let s2 = Shorter-le d1 d2 ((q.shrinks arg l).at d1 d2 l' e2) in
              let s3 = read_argument_lem read_to_eol d in ground arith)
            (omega arith) (omega arith)
