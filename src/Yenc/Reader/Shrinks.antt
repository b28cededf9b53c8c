-- ===== src/Yenc/Reader/Shrinks.antt =====
-- No function of `decode` puts bytes back: the input only gets shorter. Between the changes of state
-- in `decode`, the state stays.
use usebin.Base.{ℕ, ◌≤◌, ◌≡◌, refl, ◌∙◌, Bool, true, false, arith, length, length-drop}
use usebin.Yenc.{YFile, State}
use usebin.Yenc.Reader.{Decoder, set_file, set_state, advance, advance_to}
use usebin.Yenc.Reader.Cuts.{advance_to-until, advance_to-through, length-from, length-behind}
use usebin.Yenc.Reader.Argument.{length-rest_of}
use usebin.Yenc.Reader.Keeps.{Preorder, Keeps, keeps_rules}

pub data Shorter (d d' : Decoder) : Type 0 where
  shorter : length d'.encoded ≤ length d.encoded → Shorter d d'

pub Shorter-le : (d d' : Decoder) → Shorter d d' → length d'.encoded ≤ length d.encoded
Shorter-le d d' (shorter h) = h

pub Shorter-preorder : Preorder Shorter
Shorter-preorder = record {
  reflexive = λ d. shorter (omega arith);
  transitive =
      λ d e f r s. let a = Shorter-le d e r in let b = Shorter-le e f s in shorter (omega arith);
  reads = λ d r. shorter (omega (arith, length-rest_of r d.encoded));
}

pub Shorter-set_file : (f : YFile) → Keeps Shorter (set_file f)
Shorter-set_file f = record { at = λ d d' a e. shorter (ground arith) }

pub Shorter-set_state : (s : State) → Keeps Shorter (set_state s)
Shorter-set_state s = record { at = λ d d' a e. shorter (ground arith) }

pub Shorter-advance : (n : ℕ) → Keeps Shorter (advance n)
unfolding advance
Shorter-advance n = record { at = λ d d' a e. shorter (ground (arith, length-drop n d.encoded)) }

pub Shorter-advance_to : (p : ℕ → Bool) (x : Bool) → Keeps Shorter (advance_to p x)
Shorter-advance_to p true = record {
  at = λ d d' a e. shorter (ground (arith, advance_to-until p d, length-from p d.encoded));
}
Shorter-advance_to p false = record {
  at = λ d d' a e. shorter (ground (arith, advance_to-through p d, length-behind p d.encoded));
}

pub ruleset shorter_rules = (
  keeps_rules, Shorter-preorder, Shorter-set_file, Shorter-set_state, Shorter-advance,
  Shorter-advance_to,
)

pub data SameState (d d' : Decoder) : Type 0 where
  same_state : d'.s ≡ d.s → SameState d d'

pub SameState-eq : (d d' : Decoder) → SameState d d' → d'.s ≡ d.s
SameState-eq d d' (same_state h) = h

pub SameState-preorder : Preorder SameState
SameState-preorder = record {
  reflexive = λ d. same_state refl;
  transitive = λ d e f r s. same_state (SameState-eq e f s ∙ SameState-eq d e r);
  reads = λ d r. same_state refl;
}

pub SameState-set_file : (f : YFile) → Keeps SameState (set_file f)
SameState-set_file f = record { at = λ d d' a e. same_state (ground arith) }

pub SameState-advance : (n : ℕ) → Keeps SameState (advance n)
unfolding advance
SameState-advance n = record { at = λ d d' a e. same_state (ground arith) }

pub SameState-advance_to : (p : ℕ → Bool) (x : Bool) → Keeps SameState (advance_to p x)
SameState-advance_to p true = record {
  at = λ d d' a e. same_state (ground (arith, advance_to-until p d));
}
SameState-advance_to p false = record {
  at = λ d d' a e. same_state (ground (arith, advance_to-through p d));
}

pub ruleset same_state_rules =
    (keeps_rules, SameState-preorder, SameState-set_file, SameState-advance, SameState-advance_to)
