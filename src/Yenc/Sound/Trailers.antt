-- ===== src/Yenc/Sound/Trailers.antt =====
-- `consumeEnd` leaves the file as it is, and returns only where the size of the trailer, that of the
-- header and the number of decoded bytes are the same.
use mathlib.Core.Path.{subst}
use usebin.Base.{
  ℕ, zero, suc, ◌≡◌, refl, sym, ap, ◌∙◌, Bool, true, false, not, Option, none, some, arith, Str,
  length, codes, str_eq, Bool-cases, inl, inr, pos,
}
use usebin.Js.Number.{Number, nan, num, nat, num_eq, opt_eq}
use usebin.Js.Parse.{parse_int}
use usebin.Yenc.{YFile, no_trailer_size, Outcome, ok, throw, spin, yend}
use usebin.Yenc.Libraries.{Libraries}
use usebin.Yenc.Reader.{
  Decoder, M, ◌>>=◌, get_file, throw_if, Arg, next, arguments, advance, advance_to, set_state,
}
use usebin.Yenc.Reader.Bind.{then_do, bind-eq-ok}
use usebin.Yenc.Reader.Argument.{read_argument_lem, rest_of, arg_of}
use usebin.Yenc.Reader.Cuts.{advance_to-until, advance_to-through}
use usebin.Yenc.Reader.Keeps.{Preorder, Keeps, Keeps-arguments, keeps_rules}
use usebin.Yenc.Trailer.{content_of, size_from_header, end_argument, real_crc, consume_end}

-- The header's size is the number of bytes of the content.
pub data Sized (file : YFile) : Type 0 where
  sized : size_from_header file ≡ some (nat (length (content_of file))) → Sized file

pub Sized-eq :
    (file : YFile) → Sized file → size_from_header file ≡ some (nat (length (content_of file)))
Sized-eq file (sized h) = h

pub data SameFile (d d' : Decoder) : Type 0 where
  same_file : d'.file ≡ d.file → SameFile d d'

pub SameFile-eq : (d d' : Decoder) → SameFile d d' → d'.file ≡ d.file
SameFile-eq d d' (same_file h) = h

pub SameFile-preorder : Preorder SameFile
SameFile-preorder = record {
  reflexive = λ d. same_file refl;
  transitive = λ d e f r s. same_file (SameFile-eq e f s ∙ SameFile-eq d e r);
  reads = λ d r. same_file refl;
}

pub SameFile-advance : (n : ℕ) → Keeps SameFile (advance n)
unfolding advance
SameFile-advance n = record { at = λ d d' a e. same_file (ground arith) }

pub SameFile-advance_to : (p : ℕ → Bool) (x : Bool) → Keeps SameFile (advance_to p x)
SameFile-advance_to p true = record {
  at = λ d d' a e. same_file (ground (arith, advance_to-until p d));
}
SameFile-advance_to p false = record {
  at = λ d d' a e. same_file (ground (arith, advance_to-through p d));
}

pub SameFile-set_state : (s : _) → Keeps SameFile (set_state s)
SameFile-set_state s = record { at = λ d d' a e. same_file (ground arith) }

pub ruleset same_file_rules =
    (keeps_rules, SameFile-preorder, SameFile-advance, SameFile-advance_to, SameFile-set_state)

-- an outcome is an error, or satisfies `P`
abbrev Returned : {L : Type 0} → (L → Decoder → Type 0) → Outcome (L × Decoder) → Type 0
Returned P o = elim o [ ok (l, d) ↦ P l d | throw e ↦ Unit {0} | spin ↦ Unit {0} ]

-- an invariant of the loop over arguments
pub arguments_inv :
    {L : Type 0} (P : L → Decoder → Type 0) (read_to_eol : Option (Str → Bool))
    (body : Arg → L → M L)
    → ((l : L) (d : Decoder) → P l d → P l (record d { encoded = rest_of read_to_eol d.encoded }))
    → ((arg : Arg) (l l' : L) (d d' : Decoder) → P l d → body arg l d ≡ ok (l', d') → P l' d')
    → (fuel : ℕ) (l l' : L) (d d' : Decoder) → P l d
    → arguments fuel read_to_eol body l d ≡ ok (l', d')
    → P l' d'
unfolding arguments
arguments_inv P r body reads step zero l l' d d' h e = cc
arguments_inv P r body reads step (suc fuel) l l' d d' h e =
    let arg = arg_of r d.encoded in
    let d1 = record d { encoded = rest_of r d.encoded } in
    let e1 = sym (ap (then_do _) (read_argument_lem r d)) ∙ e in
    let (l1, d2, e2, e3) =
      bind-eq-ok (body arg l) (λ l1. next arg.at_eol l1 (arguments fuel r body l1)) d1 d' l' e1 in
    ends arg.at_eol l1 d2 (step arg l l1 d1 d2 (reads l d h) e2)
      (λ e4.
        arguments_inv P r body reads step fuel l1 l' d2 d' (step arg l l1 d1 d2 (reads l d h) e2)
          e4)
      e3
  where
    ends :
        (b : Bool) (l1 : _) (d2 : Decoder)
        → P l1 d2
        → (arguments fuel r body l1 d2 ≡ ok (l', d') → P l' d')
        → next b l1 (arguments fuel r body l1) d2 ≡ ok (l', d')
        → P l' d'
    ends true l1 d2 p ih e = subst (Returned P) e p
    ends false l1 d2 p ih e = ih e

num_eq_sound : (n : Number) (k : ℕ) → num_eq n (nat k) ≡ true → n ≡ nat k
num_eq_sound nan k h = cc
num_eq_sound (num (pos a)) k h = ground arith
num_eq_sound (num a) k h = ground arith

opt_eq_sound : (n : Number) (o : Option Number) → opt_eq (some n) o ≡ true → o ≡ some n
opt_eq_sound n none h = cc
opt_eq_sound nan (some m) h = ground arith
opt_eq_sound (num a) (some m) h = ground arith

-- the invariant of the loop: a size that was seen was right
abbrev SizeSeen : Bool → Decoder → Type 0
SizeSeen has_size d = has_size ≡ true → Sized d.file

SameFile-end_argument : (crc : ℕ) (arg : Arg) (l : Bool) → Keeps SameFile (end_argument crc arg l)
unfolding end_argument
SameFile-end_argument crc arg l = search same_file_rules depth 12

-- only a `size` argument sets the flag
end_argument-flag :
    (crc : ℕ) (arg : Arg) (l l' : Bool) (d d' : Decoder)
    → str_eq arg.key (codes "size") ≡ false
    → end_argument crc arg l d ≡ ok (l', d')
    → l' ≡ l
unfolding end_argument
end_argument-flag crc arg l l' d d' k e = ground arith

-- a `size` argument that is passed over was right
end_argument-size :
    (crc : ℕ) (arg : Arg) (l l' : Bool) (d d' : Decoder)
    → str_eq arg.key (codes "size") ≡ true
    → end_argument crc arg l d ≡ ok (l', d')
    → size_from_header d.file ≡ some (nat (length (content_of d.file)))
unfolding end_argument
end_argument-size crc arg l l' d d' k e =
    let size = parse_int none arg.value in
    ground (
      arith,
      opt_eq_sound size (size_from_header d.file),
      num_eq_sound size (length (content_of d.file)),
    )

end_argument-SizeSeen :
    (crc : ℕ) (arg : Arg) (l l' : Bool) (d d' : Decoder)
    → SizeSeen l d
    → end_argument crc arg l d ≡ ok (l', d')
    → SizeSeen l' d'
end_argument-SizeSeen crc arg l l' d d' h e seen =
    let same = SameFile-eq d d' ((SameFile-end_argument crc arg l).at d d' l' e) in
    subst Sized (sym same) (elim (Bool-cases (str_eq arg.key (codes "size"))) [
      | inl k ↦ sized (end_argument-size crc arg l l' d d' k e)
      | inr k ↦ h (sym (end_argument-flag crc arg l l' d d' k e) ∙ seen)
    ])

module _ (lib : Libraries) (seed : Option Number) (fuel : ℕ) where
  pub SameFile-consume_end : Keeps SameFile (consume_end lib seed fuel)
  unfolding consume_end
  SameFile-consume_end =
      search
        (
          same_file_rules,
          λ (crc : ℕ).
              Keeps-arguments SameFile-preorder none (end_argument crc) (SameFile-end_argument crc),
        )
        depth 12

  pub consume_end-Sized :
      (d d' : Decoder) (a : Unit {0}) → consume_end lib seed fuel d ≡ ok (a, d') → Sized d'.file
  unfolding consume_end
  consume_end-Sized d d' a e =
      let crc = λ (f : YFile). real_crc lib seed (content_of f) in
      let loop = λ (f : YFile). arguments fuel none (end_argument (crc f)) false in
      let check = λ (b : Bool). throw_if (not b) no_trailer_size in
      let (b, d1, e1, e2) =
        bind-eq-ok (advance (length yend)) (λ _. get_file >>= λ f. loop f >>= check) d d' a e in
      let (has_size, d2, e3, e4) = bind-eq-ok (loop d1.file) check d1 d' a e2 in
      let seen : SizeSeen has_size d2 =
        arguments_inv SizeSeen none (end_argument (crc d1.file)) (λ l d h. h)
          (end_argument-SizeSeen (crc d1.file)) fuel false has_size d1 d2 (λ h. cc) e3 in
      checked has_size d2 seen e4
    where
      checked :
          (b : Bool) (d2 : Decoder)
          → SizeSeen b d2
          → throw_if (not b) no_trailer_size d2 ≡ ok (a, d')
          → Sized d'.file
      checked true d2 seen e = subst (Returned (λ _ f. Sized f.file)) e (seen refl)
      checked false d2 seen e = cc
