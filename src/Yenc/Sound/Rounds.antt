-- ===== src/Yenc/Sound/Rounds.antt =====
-- What the rounds of `decodeData` do to the file, and that its data are bytes.
use usebin.Base.{
  ℕ, zero, suc, ◌<◌, ◌≡◌, arith, ℤ, All, All-append, refl, sym, ap, ◌∙◌, Bool, true, false, Option,
  none, some, [], ◌∷◌, Bytes, if◌then◌else◌, ◌==◌, init, last?,
}
use mathlib.Core.Path.{subst}
use usebin.Bytes.{has_prefix}
use usebin.Js.Number.{Number}
use usebin.Yenc.{
  YFile, State, at_start, at_begin, at_escape, at_data, Outcome, ok, throw, spin, yend, match_crlf,
  match_eq_crlf, match_not_crlf, byte_add, minus_42, minus_106,
}
use usebin.Yenc.Libraries.{Libraries}
use usebin.Yenc.Reader.{Decoder, M, ◌>>=◌, ◌>>◌, pure, set_state, advance, advance_to}
use usebin.Yenc.Reader.Bind.{then_do, bind-eq-ok}
use usebin.Yenc.Reader.Keeps.{at_state}
use usebin.Yenc.Trailer.{consume_end}
use usebin.Yenc.Data.{
  Turn, again, return, go_on, while_left, write_plain, after_token, plain_round, escape_round,
  end_round, begin_round, state_round, data_round, data_loop, escaped_byte,
}
use usebin.Yenc.Sound.Trailers.{
  Sized, SameFile-eq, SameFile-advance, SameFile-advance_to, SameFile-consume_end,
  consume_end-Sized,
}

abbrev pub AreOctets : Bytes → Type 0
AreOctets = All (λ b. b < 256)

-- The loop was left at a trailer that fits the data; the other fields are as before.
pub record Filled (before after : YFile) : Type 0 where
  pub bytes : Bytes
  pub only_content : after ≡ record before { content = some bytes }
  pub fits : Sized after
  pub octets : AreOctets bytes

-- what a round has done to the file, and of the writer that it goes on with
abbrev After : {W : Type 0} → (W → Type 0) → YFile → Turn W → Decoder → Type 0
After P f (again w) d' = (d'.file ≡ f) × P w
After P f return d' = Filled f d'.file

abbrev AfterRound : {W : Type 0} → (W → Type 0) → YFile → Outcome (Turn W × Decoder) → Type 0
AfterRound P f o = elim o [ ok (t, d') ↦ After P f t d' | throw e ↦ Unit {0} | spin ↦ Unit {0} ]

AfterRound-if :
    {W : Type 0} (P : W → Type 0) (f : YFile) (b : Bool) (m n : M (Turn W)) (d : Decoder)
    → AfterRound P f (m d)
    → AfterRound P f (n d)
    → AfterRound P f ((if b then m else n) d)
AfterRound-if P f true m n d hm hn = hm
AfterRound-if P f false m n d hm hn = hn

AfterRound-bind :
    {A W : Type 0} (P : W → Type 0) (f : YFile) (m : M A) (k : A → M (Turn W)) (d : Decoder)
    → ((a : A) (d' : Decoder) → m d ≡ ok (a, d') → AfterRound P f (k a d'))
    → AfterRound P f ((m >>= k) d)
AfterRound-bind {A} P f m k d h = go (m d) refl
  where
    go : (o : Outcome (A × Decoder)) → m d ≡ o → AfterRound P f ((m >>= k) d)
    go (ok (a, d')) e = subst (AfterRound P f) (sym (ap (then_do k) e)) (h a d' e)
    go (throw err) e = subst (AfterRound P f) (sym (ap (then_do k) e)) tt
    go spin e = subst (AfterRound P f) (sym (ap (then_do k) e)) tt

byte_add-lt : (c : ℕ) (offset : ℤ) → byte_add c offset < 256
unfolding byte_add
byte_add-lt c offset = omega arith

escaped_byte-lt : (bs : Bytes) → escaped_byte bs < 256
escaped_byte-lt [] = omega arith
escaped_byte-lt (c ∷ cs) = byte_add-lt c minus_106

-- what is written are bytes
abbrev pub Octets : (lib : Libraries) → lib.Writer → Type 0
Octets lib w = AreOctets (lib.finish w)

module _ (lib : Libraries) where
  open lib use {Writer}

  write_byte-Octets :
      (w : Writer) (b : ℕ) → Octets lib w → b < 256 → Octets lib (lib.write_byte w b)
  write_byte-Octets w b o l =
      subst AreOctets (sym (lib.finish-write_byte w b l))
        (All-append (λ b. b < 256) (lib.finish w) (b ∷ []) o (l, tt))

  write_plain-Octets : (cs : Bytes) (w : Writer) → Octets lib w → Octets lib (write_plain lib cs w)
  unfolding write_plain
  write_plain-Octets [] w o = o
  write_plain-Octets (c ∷ cs) w o =
      write_plain-Octets cs (lib.write_byte w (byte_add c minus_42))
        (write_byte-Octets w (byte_add c minus_42) o (byte_add-lt c minus_42))

  after_token-After :
      (f : YFile) (c : Option ℕ) (w : Writer) (d : Decoder)
      → d.file ≡ f
      → Octets lib w
      → AfterRound (Octets lib) f (after_token lib c w d)
  unfolding after_token
  after_token-After f none w d h o = tt
  after_token-After f (some c) w d h o =
      AfterRound-if (Octets lib) f (c == 0x3d) _ _ d (h, o)
        (AfterRound-if (Octets lib) f (match_crlf c) _ _ d (h, o) tt)

  plain_round-After :
      (f : YFile) (w : Writer) (d : Decoder)
      → d.file ≡ f
      → Octets lib w
      → AfterRound (Octets lib) f (plain_round lib w d)
  unfolding plain_round
  plain_round-After f w d h o =
      AfterRound-bind (Octets lib) f (advance_to match_eq_crlf false)
        (λ token. after_token lib (last? token) (write_plain lib (init token) w)) d
        λ token e e1.
          after_token-After f (last? token) (write_plain lib (init token) w) e
            (SameFile-eq d e ((SameFile-advance_to match_eq_crlf false).at d e token e1) ∙ h)
            (write_plain-Octets (init token) w o)

  escape_round-After :
      (f : YFile) (w : Writer) (d : Decoder)
      → d.file ≡ f
      → Octets lib w
      → AfterRound (Octets lib) f (escape_round lib w d)
  unfolding escape_round
  escape_round-After f w d h o =
      AfterRound-bind (Octets lib) f (advance 1)
        (λ _. set_state at_data >> pure (again (lib.write_byte w (escaped_byte d.encoded)))) d
        λ a e e1. (
          SameFile-eq d e ((SameFile-advance 1).at d e a e1) ∙ h,
          write_byte-Octets w (escaped_byte d.encoded) o (escaped_byte-lt d.encoded),
        )

module _ (lib : Libraries) (seed : Option Number) (fuel : ℕ) where
  open lib use {Writer}

  end_round-After :
      (f : YFile) (w : Writer) (d : Decoder)
      → d.file ≡ f
      → Octets lib w
      → AfterRound (Octets lib) f (end_round lib seed fuel w d)
  unfolding end_round
  end_round-After f w d h o =
      let ended = record d { file = record d.file { content = some (lib.finish w) } } in
      AfterRound-bind (Octets lib) f (consume_end lib seed fuel) (λ _. pure return) ended
        λ u e e1. record {
          bytes = lib.finish w;
          only_content =
              SameFile-eq ended e ((SameFile-consume_end lib seed fuel).at ended e u e1)
              ∙ ap (λ (g : YFile). record g { content = some (lib.finish w) }) h;
          fits = consume_end-Sized lib seed fuel ended e u e1;
          octets = o;
        }

  state_round-After :
      (f : YFile) (s : State) (w : Writer) (d : Decoder)
      → d.file ≡ f
      → Octets lib w
      → AfterRound (Octets lib) f (state_round lib seed s fuel w d)
  unfolding state_round begin_round
  state_round-After f at_start w d h o = (h, o)
  state_round-After f at_begin w d h o =
      AfterRound-if (Octets lib) f (has_prefix d.encoded yend) (end_round lib seed fuel w)
        (plain_round lib w) d (end_round-After f w d h o) (plain_round-After lib f w d h o)
  state_round-After f at_escape w d h o = escape_round-After lib f w d h o
  state_round-After f at_data w d h o = plain_round-After lib f w d h o

  data_round-After :
      (f : YFile) (w : Writer) (d : Decoder)
      → d.file ≡ f
      → Octets lib w
      → AfterRound (Octets lib) f (data_round lib seed fuel w d)
  unfolding data_round
  data_round-After f w d h o =
      AfterRound-bind (Octets lib) f (advance_to match_not_crlf true)
        (λ _ d1. state_round lib seed d1.s fuel w d1) d
        λ a e e1.
          state_round-After f e.s w e
            (SameFile-eq d e ((SameFile-advance_to match_not_crlf true).at d e a e1) ∙ h) o

  pub data_loop-Filled :
      (f : YFile) (rounds : ℕ) (w : Writer) (d d' : Decoder) (a : Unit {0})
      → d.file ≡ f
      → Octets lib w
      → data_loop lib seed rounds fuel w d ≡ ok (a, d')
      → Filled f d'.file
  unfolding data_loop
  data_loop-Filled f zero w d d' a h o e = cc
  data_loop-Filled f (suc rounds) w d d' a h o e =
      by_bytes d.encoded (λ w' d1 k o' e2. data_loop-Filled f rounds w' d1 d' a k o' e2) e
    where
      rest : Turn Writer → M (Unit {0})
      rest = go_on (data_loop lib seed rounds fuel)

      Later : Type 0
      Later =
          (w' : Writer) (d1 : Decoder)
          → d1.file ≡ f
          → Octets lib w'
          → data_loop lib seed rounds fuel w' d1 ≡ ok (a, d')
          → Filled f d'.file

      by_turn :
          (t : Turn Writer) (d1 : Decoder)
          → Later
          → After (Octets lib) f t d1
          → rest t d1 ≡ ok (a, d')
          → Filled f d'.file
      by_turn (again w') d1 ih (k, o') e2 = ih w' d1 k o' e2
      by_turn return d1 ih k e2 = at_state (λ _ e3. Filled f e3.file) tt a d1 d1 d' e2 k

      by_bytes :
          (bs : Bytes)
          → Later
          → while_left bs (data_round lib seed fuel w >>= rest) d ≡ ok (a, d')
          → Filled f d'.file
      by_bytes [] ih e = cc
      by_bytes (b ∷ bs) ih e =
          let (t, d1, e1, e2) = bind-eq-ok (data_round lib seed fuel w) rest d d' a e in
          by_turn t d1 ih (subst (AfterRound (Octets lib) f) e1 (data_round-After f w d h o)) e2
