-- ===== src/Yenc/Reader/Keeps.antt =====
-- What a call leaves in place: relations between the decoder before and after a call that returns,
-- with one rule for each way to build a call.
use usebin.Base.{ℕ, zero, suc, ◌≡◌, ap, sym, ◌∙◌, Bool, true, false, Option, if◌then◌else◌, Str}
use usebin.Yenc.{YencError, Outcome, ok, throw, spin}
use usebin.Yenc.Reader.{
  Decoder, M, ◌>>=◌, pure, raise, throw_if, get_encoded, get_state, get_file, Arg, read_argument,
  next, arguments,
}
use mathlib.Core.Path.{subst}
use usebin.Yenc.Reader.Bind.{bind-eq-ok}
use usebin.Yenc.Reader.Argument.{read_argument_lem, rest_of}

pub record Preorder (R : Decoder → Decoder → Type 0) : Type 0 where
  pub reflexive : (d : Decoder) → R d d
  pub transitive : (d e f : Decoder) → R d e → R e f → R d f
  -- taking bytes off is no matter
  pub reads :
      (d : Decoder) (read_to_eol : Option (Str → Bool))
      → R d (record d { encoded = rest_of read_to_eol d.encoded })

pub record Keeps (R : Decoder → Decoder → Type 0) {A : Type 0} (m : M A) : Type 0 where
  pub at : (d d' : Decoder) (a : A) → m d ≡ ok (a, d') → R d d'

-- the decoder behind an outcome
abbrev state_or : {A : Type 0} → Decoder → Outcome (A × Decoder) → Decoder
state_or d o = elim o [ ok (a, d') ↦ d' | throw e ↦ d | spin ↦ d ]

-- A call that returned this state is related to it if its actual state is.
pub at_state :
    (R : Decoder → Decoder → Type 0) {A : Type 0} (a a' : A) (d e d' : Decoder)
    → ◌≡◌ {A = Outcome (A × Decoder)} (ok (a, e)) (ok (a', d'))
    → R d e
    → R d d'
at_state R a a' d e d' h r = subst (R d) (ap (state_or d) h) r

module _ {R : Decoder → Decoder → Type 0} where
  pub Keeps-pure : {A : Type 0} → Preorder R → (a : A) → Keeps R (pure a)
  Keeps-pure po a = record { at = λ d d' a' e. at_state R a a' d d d' e (po.reflexive d) }

  pub Keeps-throw_if : Preorder R → (b : Bool) (err : YencError) → Keeps R (throw_if b err)
  Keeps-throw_if po true err = record { at = λ d d' a e. cc }
  Keeps-throw_if po false err = record {
    at = λ d d' a e. at_state R tt a d d d' e (po.reflexive d);
  }

  pub Keeps-get_file : Preorder R → Keeps R get_file
  Keeps-get_file po = record { at = λ d d' a e. at_state R d.file a d d d' e (po.reflexive d) }

  pub Keeps-get_encoded : Preorder R → Keeps R get_encoded
  Keeps-get_encoded po = record {
    at = λ d d' a e. at_state R d.encoded a d d d' e (po.reflexive d);
  }

  pub Keeps-get_state : Preorder R → Keeps R get_state
  Keeps-get_state po = record { at = λ d d' a e. at_state R d.s a d d d' e (po.reflexive d) }

  pub Keeps-raise : {A : Type 0} → (err : YencError) → Keeps R (raise {A = A} err)
  Keeps-raise err = record { at = λ d d' a e. cc }

  pub Keeps-bind :
      {A B : Type 0}
      → Preorder R
      → (m : M A) (f : A → M B) → Keeps R m
      → ((a : A) → Keeps R (f a))
      → Keeps R (m >>= f)
  Keeps-bind po m f sm sf = record {
    at = λ d d'' b e.
        let (a, d', e1, e2) = bind-eq-ok m f d d'' b e in
        po.transitive d d' d'' (sm.at d d' a e1) ((sf a).at d' d'' b e2);
  }

  pub Keeps-if :
      {A : Type 0} (b : Bool) (m n : M A) → Keeps R m → Keeps R n → Keeps R (if b then m else n)
  Keeps-if true m n sm sn = sm
  Keeps-if false m n sm sn = sn

  Keeps-next :
      {L : Type 0}
      → Preorder R
      → (at_eol : Bool) (l : L) (more : M L) → Keeps R more
      → Keeps R (next at_eol l more)
  Keeps-next po true l more s = Keeps-pure po l
  Keeps-next po false l more s = s

  pub Keeps-read_argument :
      Preorder R → (read_to_eol : Option (Str → Bool)) → Keeps R (read_argument read_to_eol)
  Keeps-read_argument po read_to_eol = record {
    at = λ d d' a e.
        at_state R _ a d _ d' (sym (read_argument_lem read_to_eol d) ∙ e) (po.reads d read_to_eol);
  }

  pub Keeps-arguments :
      {L : Type 0}
      → Preorder R
      → (read_to_eol : Option (Str → Bool)) (body : Arg → L → M L)
      → ((arg : Arg) (l : L) → Keeps R (body arg l))
      → (fuel : ℕ) (l : L) → Keeps R (arguments fuel read_to_eol body l)
  unfolding arguments
  Keeps-arguments po read_to_eol body sb zero l = record { at = λ d d' a e. cc }
  Keeps-arguments po read_to_eol body sb (suc fuel) l =
      Keeps-bind po _ _ (Keeps-read_argument po read_to_eol) λ arg.
        Keeps-bind po _ _ (sb arg l)
          λ l'. Keeps-next po arg.at_eol l' _ (Keeps-arguments po read_to_eol body sb fuel l')

pub ruleset keeps_rules = (
  Keeps-pure, Keeps-raise, Keeps-throw_if, Keeps-get_file, Keeps-get_encoded, Keeps-get_state,
  Keeps-bind, Keeps-if, Keeps-arguments,
)
