-- ===== src/Yenc/RoundTrip/Throws.antt =====
-- The loop of `decodeData` on a last line that it reads as data.
use usebin.Base.{
  ℕ, suc, ◌≡◌, ◌≢◌, ◌⊎◌, refl, ap, ◌∙◌, inl, inr, true, false, Option, [], ◌∷◌, ◌++◌, ◌==◌,
  if◌then◌else◌, arith, Bytes, All-append, append_assoc, Bool-cases, ==_iff,
}
use mathlib.Core.Path.{subst}
use usebin.Js.Number.{Number}
use usebin.Yenc.{
  YFile, YencError, State, at_data, at_escape, at_begin, throw, unexpected_eof, reached_eof,
  match_crlf, match_eq_crlf,
}
use usebin.Yenc.Libraries.{Libraries}
use usebin.Yenc.Reader.{advance, advance_to}
use usebin.Yenc.Reader.Cuts.{Misses}
use usebin.Yenc.Data.{
  write_plain, after_token, plain_round, escape_round, state_round, data_round, data_loop,
}
use usebin.Yenc.RoundTrip.Steps.{at_text, data_loop-token, data_loop-escaped}
use usebin.Yenc.RoundTrip.Tokens.{rounds}

module _ (lib : Libraries) (seed : Option Number) (file : YFile) where
  -- from this state and text, whatever is written, the loop throws
  abbrev pub Throws : State → Bytes → Type 0
  Throws st text =
      (k : ℕ) × (e : YencError) × ((fuel n : ℕ) (w : lib.Writer)
        → data_loop lib seed (rounds k (suc n)) fuel w (at_text file st text) ≡ throw e)

  Throws-break : Throws at_data (10 ∷ [])
  unfolding data_loop data_round advance_to advance state_round plain_round after_token write_plain
  Throws-break = (0, unexpected_eof, λ fuel n w. refl)

  Throws-escape : Throws at_escape (10 ∷ [])
  unfolding data_loop data_round advance_to advance state_round escape_round
  Throws-escape = (0, reached_eof, λ fuel n w. refl)

  Throws-empty : Throws at_begin []
  unfolding data_loop
  Throws-empty = (0, unexpected_eof, λ fuel n w. refl)

  Throws-token :
      (p : Bytes) (c : ℕ) (st : State) (rest : Bytes)
      → Misses match_eq_crlf p
      → match_eq_crlf c ≡ true
      → (p ≢ []) ⊎ (c ≡ 0x3d)
      → (if c == 0x3d then at_escape else at_begin) ≡ st
      → Throws st rest
      → Throws at_data (p ++ c ∷ rest)
  Throws-token p c st rest m h s e (k, err, runs) = (
    suc k,
    err,
    λ fuel n w.
        data_loop-token lib seed fuel file (rounds k (suc n)) at_data p c rest w m h refl s
        ∙ ap
            (λ x.
              data_loop lib seed (rounds k (suc n)) fuel (write_plain lib p w)
                (at_text file x rest))
            e
        ∙ runs fuel n (write_plain lib p w),
  )

  pub Throws-escaped :
      (c : ℕ) (rest : Bytes)
      → match_crlf c ≡ false
      → Throws at_data rest
      → Throws at_escape (c ∷ rest)
  Throws-escaped c rest h (k, err, runs) = (
    suc k,
    err,
    λ fuel n w.
        data_loop-escaped lib seed fuel file (rounds k (suc n)) c rest w (ground arith)
        ∙ runs fuel n _,
  )

  -- A line without a break inside it, at whose end the input ends, is read as data, and the loop throws.
  pub Throws-line :
      (t p : Bytes)
      → Misses match_eq_crlf p
      → Misses match_crlf t
      → Throws at_data (p ++ (t ++ 10 ∷ []))
  Throws-line [] [] m l = Throws-break
  Throws-line [] (c ∷ p) m l =
      Throws-token (c ∷ p) 10 at_begin [] m refl (inl (λ e. cc)) refl Throws-empty
  Throws-line (d ∷ []) p m (h, l) = elim (Bool-cases (d == 0x3d)) [
    | inl e ↦
        Throws-token p d at_escape (10 ∷ []) m (ground arith) (inr ((==_iff d 0x3d).0 e))
          (ap (λ b. if b then at_escape else at_begin) e) Throws-escape
    | inr e ↦ subst (Throws at_data) (append_assoc p (d ∷ []) (10 ∷ [])) (
        Throws-line [] (p ++ d ∷ [])
          (All-append (λ c. match_eq_crlf c ≡ false) p (d ∷ []) m (ground arith, tt)) tt)
  ]
  Throws-line (d ∷ c ∷ t) p m (h, (g, l)) = elim (Bool-cases (d == 0x3d)) [
    | inl e ↦
        Throws-token p d at_escape (c ∷ t ++ 10 ∷ []) m (ground arith) (inr ((==_iff d 0x3d).0 e))
          (ap (λ b. if b then at_escape else at_begin) e)
          (Throws-escaped c (t ++ 10 ∷ []) g (Throws-line t [] tt l))
    | inr e ↦ subst (Throws at_data) (append_assoc p (d ∷ []) (c ∷ t ++ 10 ∷ [])) (
        Throws-line (c ∷ t) (p ++ d ∷ [])
          (All-append (λ c. match_eq_crlf c ≡ false) p (d ∷ []) m (ground arith, tt)) (g, l))
  ]
