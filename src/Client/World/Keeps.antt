-- ===== src/Client/World/Keeps.antt =====
-- What a call leaves in place, however it ends, with one rule for each way to build a call; and what
-- a sequence of calls that ended went through.
use usebin.Base.{◌≡◌, refl, sym, ap, ◌∙◌, Option, none, some}
use mathlib.Core.Path.{subst}
use usebin.Yenc.{Outcome, ok, throw, spin}
use usebin.Client.{ClientError}
use usebin.Client.World.{World, C, Run, returned, threw, stuck, pure, raise, lift, or_raise, ◌>>=◌}

-- A call that has ended did so in a world with the property.
abbrev pub Ends : {A : Type 0} → (World → Type 0) → Run A → Type 0
Ends P (returned a w) = P w
Ends P (threw e w) = P w
Ends P stuck = Unit

module _ {A B : Type 0} where
  -- what the sequel makes of an outcome
  abbrev pub then_do : (A → C B) → Run A → Run B
  then_do f r = elim r [ returned a w ↦ f a w | threw e w ↦ threw e w | stuck ↦ stuck ]

  pub bind-returned :
      (m : C A) (f : A → C B) (w w' : World) (a : A) → m w ≡ returned a w' → (m >>= f) w ≡ f a w'
  bind-returned m f w w' a e = ap (then_do f) e

  pub bind-threw :
      (m : C A) (f : A → C B) (w w' : World) (err : ClientError)
      → m w ≡ threw err w'
      → (m >>= f) w ≡ threw err w'
  bind-threw m f w w' err e = ap (then_do f) e

  pub bind-lift :
      (o : Outcome A) (f : A → C B) (w : World) (a : A) → o ≡ ok a → (lift o >>= f) w ≡ f a w
  bind-lift o f w a e = ap (λ o. then_do f (lift o w)) e

  pub bind-or_raise :
      (err : ClientError) (o : Option A) (f : A → C B) (w : World) (a : A)
      → o ≡ some a
      → (or_raise err o >>= f) w ≡ f a w
  bind-or_raise err o f w a e = ap (λ o. then_do f (or_raise err o w)) e

  pub bind-eq-returned :
      (m : C A) (f : A → C B) (w w'' : World) (b : B)
      → (m >>= f) w ≡ returned b w''
      → (a : A) × (w' : World) × (m w ≡ returned a w') × (f a w' ≡ returned b w'')
  bind-eq-returned m f w w'' b h = split (m w) refl
    where
      split :
          (r : Run A)
          → m w ≡ r
          → (a : A) × (w' : World) × (m w ≡ returned a w') × (f a w' ≡ returned b w'')
      split (returned a w') e = (a, w', e, sym (ap (then_do f) e) ∙ h)
      split (threw err w') e = let h' = sym (ap (then_do f) e) ∙ h in cc
      split stuck e = let h' = sym (ap (then_do f) e) ∙ h in cc

-- However the call ends, the world before and the world after are related.
pub record Keeps (R : World → World → Type 0) {A : Type 0} (m : C A) : Type 0 where
  pub at : (w : World) → Ends (R w) (m w)

pub record Preorder (R : World → World → Type 0) : Type 0 where
  pub reflexive : (w : World) → R w w
  pub transitive : (u v w : World) → R u v → R v w → R u w

module _ {R : World → World → Type 0} where
  pub Keeps-returned :
      {A : Type 0} (m : C A) (w w' : World) (a : A) → Keeps R m → m w ≡ returned a w' → R w w'
  Keeps-returned m w w' a k e = subst (Ends (R w)) e (k.at w)

  pub Keeps-threw :
      {A : Type 0} (m : C A) (w w' : World) (err : ClientError)
      → Keeps R m
      → m w ≡ threw err w'
      → R w w'
  Keeps-threw m w w' err k e = subst (Ends (R w)) e (k.at w)

  pub Keeps-pure : {A : Type 0} → Preorder R → (a : A) → Keeps R (pure a)
  Keeps-pure po a = record { at = λ w. po.reflexive w }

  pub Keeps-raise : {A : Type 0} → Preorder R → (e : ClientError) → Keeps R (raise {A = A} e)
  Keeps-raise po e = record { at = λ w. po.reflexive w }

  pub Keeps-lift : {A : Type 0} → Preorder R → (o : Outcome A) → Keeps R (lift o)
  Keeps-lift po (ok a) = record { at = λ w. po.reflexive w }
  Keeps-lift po (throw e) = record { at = λ w. po.reflexive w }
  Keeps-lift po spin = record { at = λ w. tt }

  pub Keeps-or_raise :
      {A : Type 0} → Preorder R → (e : ClientError) (o : Option A) → Keeps R (or_raise e o)
  Keeps-or_raise po e none = record { at = λ w. po.reflexive w }
  Keeps-or_raise po e (some a) = record { at = λ w. po.reflexive w }

  pub Keeps-bind :
      {A B : Type 0}
      → Preorder R
      → (m : C A) (f : A → C B) → Keeps R m
      → ((a : A) → Keeps R (f a))
      → Keeps R (m >>= f)
  Keeps-bind {A = A} {B = B} po m f km kf = record { at = λ w. split w (m w) (km.at w) }
    where
      weaken : (u v : World) (r : Run B) → R u v → Ends (R v) r → Ends (R u) r
      weaken u v (returned b w) h k = po.transitive u v w h k
      weaken u v (threw e w) h k = po.transitive u v w h k
      weaken u v stuck h k = tt

      split : (w : World) (r : Run A) → Ends (R w) r → Ends (R w) (then_do f r)
      split w (returned a w') h = weaken w w' (f a w') h ((kf a).at w')
      split w (threw e w') h = h
      split w stuck h = tt
