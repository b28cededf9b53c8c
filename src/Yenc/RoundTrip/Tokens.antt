-- ===== src/Yenc/RoundTrip/Tokens.antt =====
-- The loop of `decodeData` over a single byte of the data, or a line break, as `writeBody` writes
-- them.
use usebin.Base.{
  ℕ, zero, suc, ◌<◌, ◌≡◌, ◌≢◌, ◌⊎◌, inl, inr, refl, sym, ap, ◌∙◌, true, Option, [], ◌∷◌, ◌++◌, map,
  arith, Bytes, append_assoc, append-nil,
}
use usebin.Js.Number.{Number}
use usebin.Yenc.{
  YFile, State, at_begin, at_data, byte_add, minus_42, minus_106, match_critical_char,
  match_eq_crlf, match_not_crlf,
}
use usebin.Yenc.Libraries.{Libraries}
use usebin.Yenc.Reader.{Decoder}
use usebin.Yenc.Reader.Cuts.{Misses}
use usebin.Yenc.Data.{write_plain, data_loop}
use usebin.Yenc.Encode.Body.{shifted, escaped, shifted-inverse, escaped-inverse, escaped-range}
use usebin.Yenc.RoundTrip.Steps.{
  at_text, reads_plain, data_loop-break, data_loop-token, data_loop-escaped,
}

-- the byte of the data that a byte stands for where it is not escaped
abbrev pub unshifted : ℕ → ℕ
unshifted c = byte_add c minus_42

byte_add-bound : (c : ℕ) → byte_add c minus_42 < 256
unfolding byte_add
byte_add-bound c = omega arith

byte_add-bound_escaped : (c : ℕ) → byte_add c (minus_106) < 256
unfolding byte_add
byte_add-bound_escaped c = omega arith

map-snoc :
    (p xs : Bytes) (c : ℕ) → map unshifted (p ++ c ∷ []) ++ xs ≡ map unshifted p ++ unshifted c ∷ xs
map-snoc [] xs c = refl
map-snoc (d ∷ p) xs c = ap (unshifted d ∷◌) (map-snoc p xs c)

abbrev pub IsReading : State → Type 0
IsReading st = (st ≡ at_begin) ⊎ (st ≡ at_data)

reads_behind :
    (st : State) (p : Bytes) (t : ℕ) (rest : Bytes)
    → IsReading st
    → Misses match_eq_crlf p
    → p ≢ []
    → reads_plain st (p ++ t ∷ rest) ≡ true
reads_behind st [] t rest i m n = ground (arith, n refl)
reads_behind st (c ∷ p) t rest (inl e) m n = rw e (ground arith)
reads_behind st (c ∷ p) t rest (inr e) m n = rw e refl

reads_escape :
    (st : State) (p : Bytes) (c : ℕ) (rest : Bytes)
    → IsReading st
    → Misses match_eq_crlf p
    → c ≢ 0x79
    → reads_plain st (p ++ 0x3d ∷ c ∷ rest) ≡ true
reads_escape st [] c rest (inl e) m n = rw e (ground arith)
reads_escape st [] c rest (inr e) m n = rw e refl
reads_escape st (d ∷ p) c rest i m n = reads_behind st (d ∷ p) 0x3d (c ∷ rest) i m (λ e. cc)

-- `k + n`, computed by the first number
abbrev pub rounds : ℕ → ℕ → ℕ
rounds zero n = n
rounds (suc k) n = suc (rounds k n)

module _ (lib : Libraries) where
  open lib use {Writer, write_byte, finish, finish-write_byte}

  finish-write_plain :
      (p : Bytes) (w : Writer) → finish (write_plain lib p w) ≡ finish w ++ map unshifted p
  unfolding write_plain
  finish-write_plain [] w = sym (append-nil (finish w))
  finish-write_plain (c ∷ p) w =
      finish-write_plain p (write_byte w (unshifted c))
      ∙ ap (◌++ map unshifted p) (finish-write_byte w (unshifted c) (byte_add-bound c))
      ∙ append_assoc (finish w) (unshifted c ∷ []) (map unshifted p)

  module _ (seed : Option Number) (file : YFile) (goal : Decoder) where
    -- From this state and text the loop comes, in one round or more, to the goal, with the bytes
    -- that `p` stands for and `xs` written.
    abbrev pub Reads : State → Bytes → Writer → Bytes → Bytes → Type 0
    Reads st text w p xs =
        (k : ℕ) × (w' : Writer) × ((fuel n : ℕ)
          → data_loop lib seed (suc (rounds k n)) fuel w (at_text file st text)
            ≡ data_loop lib seed n fuel w' goal)
        × (finish w' ≡ finish w ++ (map unshifted p ++ xs))

    -- a byte that is not escaped
    pub read_plain :
        (st : State) (p more xs : Bytes) (w : Writer) (x : ℕ)
        → x < 256
        → Reads st (p ++ shifted x ∷ [] ++ more) w (p ++ shifted x ∷ []) xs
        → Reads st (p ++ shifted x ∷ more) w p (x ∷ xs)
    read_plain st p more xs w x b (k, w', runs, e) = (
      k,
      w',
      λ fuel n.
          ap (λ t. data_loop lib seed (suc (rounds k n)) fuel w (at_text file st t))
            (sym (append_assoc p (shifted x ∷ []) more))
          ∙ runs fuel n,
      e
          ∙ ap (finish w ++◌) (
              map-snoc p xs (shifted x)
              ∙ ap (λ y. map unshifted p ++ y ∷ xs) (shifted-inverse x b)),
    )

    -- a line break before more data
    pub read_break :
        (st : State) (p : Bytes) (c : ℕ) (more xs : Bytes) (w : Writer)
        → IsReading st
        → Misses match_eq_crlf p
        → match_not_crlf c ≡ true
        → ((st' : State) (w' : Writer) → IsReading st' → Reads st' (c ∷ more) w' [] xs)
        → Reads st (p ++ 10 ∷ c ∷ more) w p xs
    read_break st [] c more xs w i m h next =
        let (k, w', runs, e) = next st w i in
        (
          k,
          w',
          λ fuel n. data_loop-break lib seed fuel file (rounds k n) st c more w h ∙ runs fuel n,
          e,
        )
    read_break st (d ∷ p) c more xs w i m h next =
        let q = d ∷ p in
        let (k, w', runs, e) = next at_begin (write_plain lib q w) (inl refl) in
        (
          suc k,
          w',
          λ fuel n.
              data_loop-token lib seed fuel file (suc (rounds k n)) st q 10 (c ∷ more) w m refl
                (reads_behind st q 10 (c ∷ more) i m (λ o. cc)) (inl (λ o. cc))
              ∙ runs fuel n,
          e ∙ ap (◌++ xs) (finish-write_plain q w) ∙ append_assoc (finish w) (map unshifted q) xs,
        )

    -- an escaped byte
    pub read_escaped :
        (st : State) (p more xs : Bytes) (w : Writer) (x : ℕ)
        → x < 256
        → IsReading st
        → Misses match_eq_crlf p
        → match_critical_char (shifted x) ≡ true
        → ((w' : Writer) → Reads at_data more w' [] xs)
        → Reads st (p ++ 0x3d ∷ escaped x ∷ more) w p (x ∷ xs)
    read_escaped st p more xs w x b i m h next =
        let (n13, n10, n79, n0) = escaped-range x h in
        let w1 = write_plain lib p w in
        let (k, w', runs, e) = next (write_byte w1 (byte_add (escaped x) minus_106)) in
        (
          suc (suc k),
          w',
          λ fuel n.
              data_loop-token lib seed fuel file (suc (suc (rounds k n))) st p 0x3d
                (escaped x ∷ more) w m refl (reads_escape st p (escaped x) more i m n79) (inr refl)
              ∙ data_loop-escaped lib seed fuel file (suc (rounds k n)) (escaped x) more w1
                  (ground arith)
              ∙ runs fuel n,
          e
              ∙ ap (◌++ xs) (
                  finish-write_byte w1 (byte_add (escaped x) minus_106)
                    (byte_add-bound_escaped (escaped x))
                  ∙ ap (◌++ byte_add (escaped x) minus_106 ∷ []) (finish-write_plain p w))
              ∙ append_assoc (finish w ++ map unshifted p) (byte_add (escaped x) minus_106 ∷ []) xs
              ∙ append_assoc (finish w) (map unshifted p) (byte_add (escaped x) minus_106 ∷ xs)
              ∙ ap (λ y. finish w ++ (map unshifted p ++ y ∷ xs)) (escaped-inverse x b h),
        )

  -- the last line break
  pub read_end :
      (seed : Option Number) (file : YFile) (tail : Bytes) (st : State) (p : Bytes) (w : Writer)
      → IsReading st
      → Misses match_eq_crlf p
      → p ≢ []
      → Reads seed file (at_text file at_begin tail) st (p ++ 10 ∷ tail) w p []
  read_end seed file tail st p w i m n = (
    0,
    write_plain lib p w,
    λ fuel k.
        data_loop-token lib seed fuel file k st p 10 tail w m refl (reads_behind st p 10 tail i m n)
          (inl n),
    finish-write_plain p w ∙ ap (finish w ++◌) (sym (append-nil (map unshifted p))),
  )
