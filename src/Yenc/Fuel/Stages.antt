-- ===== src/Yenc/Fuel/Stages.antt =====
-- The stages of `decode` under two bounds on the rounds: on inputs of at most `n` bytes they agree
-- where both bounds exceed `n`.
use usebin.Base.{
  ℕ, ◌≤◌, ◌<◌, ◌≡◌, refl, Bool, true, false, Option, none, Str, arith, length, if◌then◌else◌,
}
use usebin.Js.Number.{Number}
use usebin.Yenc.Libraries.{Libraries}
use usebin.Yenc.Reader.{Decoder, M, ◌>>=◌, Arg, arguments}
use usebin.Yenc.Reader.Bind.{bind-agree}
use usebin.Yenc.Reader.Keeps.{Keeps, Keeps-arguments}
use usebin.Yenc.Reader.Shrinks.{Shorter, Shorter-le, Shorter-preorder, shorter_rules}
use usebin.Yenc.Header.{begin_line, consume_part, at_keyword, after_begin}
use usebin.Yenc.Trailer.{end_argument, consume_end}
use usebin.Yenc.Fuel.Arguments.{Quiet, arguments-agree}
use usebin.Yenc.Fuel.Bodies.{Quiet-end_argument, Quiet-begin_argument, Quiet-part_argument}

-- Two calls have the same outcome on every input of at most `n` bytes.
pub record Agree (n : ℕ) {A : Type 0} (m m' : M A) : Type 0 where
  pub at : (d : Decoder) → length d.encoded ≤ n → m d ≡ m' d

pub Agree-refl : {A : Type 0} (n : ℕ) (m : M A) → Agree n m m
Agree-refl n m = record { at = λ d h. refl }

pub Agree-bind :
    {A B : Type 0} (n : ℕ) (m m' : M A) (f f' : A → M B)
    → Agree n m m'
    → Keeps Shorter m
    → ((a : A) → Agree n (f a) (f' a))
    → Agree n (m >>= f) (m' >>= f')
Agree-bind n m m' f f' am sm af = record {
  at = λ d h.
      bind-agree m m' f f' d (am.at d h)
        λ a d' e. (af a).at d' (let l = Shorter-le d d' (sm.at d d' a e) in omega arith);
}

pub Agree-if :
    {A : Type 0} (n : ℕ) (b : Bool) (m m' k k' : M A)
    → Agree n m m'
    → Agree n k k'
    → Agree n (if b then m else k) (if b then m' else k')
Agree-if n true m m' k k' am ak = am
Agree-if n false m m' k k' am ak = ak

module _ (n f g : ℕ) (lf : n < f) (lg : n < g) where
  Agree-arguments :
      {L : Type 0} (read_to_eol : Option (Str → Bool)) (body : Arg → L → M L) (l : L)
      → Quiet body
      → Agree n (arguments f read_to_eol body l) (arguments g read_to_eol body l)
  Agree-arguments read_to_eol body l q = record {
    at = λ d h. arguments-agree read_to_eol body q n f g l d h lf lg;
  }

  pub Agree-consume_part : Agree n (consume_part f) (consume_part g)
  unfolding consume_part
  Agree-consume_part =
      search
        (
          Agree-bind,
          Agree-arguments,
          Quiet-part_argument,
          shorter_rules,
          Keeps-arguments Shorter-preorder _ _ Quiet-part_argument.shrinks,
          Agree-refl,
        )
        depth 12

  pub Agree-begin_line : Agree n (begin_line f) (begin_line g)
  unfolding begin_line
  Agree-begin_line =
      search
        (
          Agree-bind,
          Agree-arguments,
          Quiet-begin_argument,
          shorter_rules,
          Keeps-arguments Shorter-preorder _ _ Quiet-begin_argument.shrinks,
          Agree-refl,
        )
        depth 12

  module _ (lib : Libraries) (seed : Option Number) where
    pub Agree-consume_end : Agree n (consume_end lib seed f) (consume_end lib seed g)
    unfolding consume_end
    Agree-consume_end =
        search
          (
            Agree-bind,
            Agree-arguments,
            Quiet-end_argument,
            shorter_rules,
            λ (crc : ℕ).
                Keeps-arguments Shorter-preorder none (end_argument crc)
                  (Quiet-end_argument crc).shrinks,
            Agree-refl,
          )
          depth 12

    pub Agree-at_keyword : Agree n (at_keyword lib seed f) (at_keyword lib seed g)
    unfolding at_keyword
    Agree-at_keyword =
        search
          (Agree-bind, Agree-if, Agree-consume_part, Agree-consume_end, shorter_rules, Agree-refl)
          depth 12

    pub Agree-after_begin : Agree n (after_begin lib seed f) (after_begin lib seed g)
    unfolding after_begin
    Agree-after_begin = search (Agree-bind, Agree-at_keyword, shorter_rules, Agree-refl) depth 12
