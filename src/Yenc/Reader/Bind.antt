-- ===== src/Yenc/Reader/Bind.antt =====
-- Laws of the decoder's sequencing.
use usebin.Base.{◌≡◌, refl, sym, ap, ◌∙◌}
use usebin.Yenc.{YencError, Outcome, ok, throw, spin}
use usebin.Yenc.Reader.{Decoder, M, ◌>>=◌}

module _ {A B : Type 0} where
  -- what the sequel makes of an outcome
  abbrev pub then_do : (A → M B) → Outcome (A × Decoder) → Outcome (B × Decoder)
  then_do f o = elim o [ ok (a, d') ↦ f a d' | throw e ↦ throw e | spin ↦ spin ]

  pub bind-ok :
      (m : M A) (f : A → M B) (d d' : Decoder) (a : A) → m d ≡ ok (a, d') → (m >>= f) d ≡ f a d'
  bind-ok m f d d' a e = ap (then_do f) e

  pub bind-throw :
      (m : M A) (f : A → M B) (d : Decoder) (err : YencError)
      → m d ≡ throw err
      → (m >>= f) d ≡ throw err
  bind-throw m f d err e = ap (then_do f) e

  -- what a bind that returns went through
  pub bind-eq-ok :
      (m : M A) (f : A → M B) (d d'' : Decoder) (b : B)
      → (m >>= f) d ≡ ok (b, d'')
      → (a : A) × (d' : Decoder) × (m d ≡ ok (a, d')) × (f a d' ≡ ok (b, d''))
  bind-eq-ok m f d d'' b h = split (m d) refl
    where
      split :
          (o : Outcome (A × Decoder))
          → m d ≡ o
          → (a : A) × (d' : Decoder) × (m d ≡ ok (a, d')) × (f a d' ≡ ok (b, d''))
      split (ok (a, d')) e = (a, d', e, sym (ap (then_do f) e) ∙ h)
      split (throw err) e = let h' = sym (ap (then_do f) e) ∙ h in cc
      split spin e = let h' = sym (ap (then_do f) e) ∙ h in cc

  -- two sequences agree where their parts do
  pub bind-agree :
      (m m' : M A) (f f' : A → M B) (d : Decoder)
      → m d ≡ m' d
      → ((a : A) (d' : Decoder) → m d ≡ ok (a, d') → f a d' ≡ f' a d')
      → (m >>= f) d ≡ (m' >>= f') d
  bind-agree m m' f f' d e g = split (m d) refl ∙ ap (then_do f') e
    where
      split : (o : Outcome (A × Decoder)) → m d ≡ o → then_do f (m d) ≡ then_do f' (m d)
      split (ok (a, d')) e' = ap (then_do f) e' ∙ g a d' e' ∙ sym (ap (then_do f') e')
      split (throw err) e' = ap (then_do f) e' ∙ sym (ap (then_do f') e')
      split spin e' = ap (then_do f) e' ∙ sym (ap (then_do f') e')
