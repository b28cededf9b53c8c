-- ===== src/Yenc/RoundTrip/Body.antt =====
-- The loop of `decodeData` over the lines that `writeBody` writes.
use usebin.Base.{
  ℕ, suc, ◌+◌, ◌<◌, ◌≡◌, ◌≢◌, inl, inr, refl, sym, Bool, true, false, Option, [], ◌∷◌, ◌++◌, ltb,
  arith, Bytes, append-nil, All, All-append,
}
use usebin.Js.Number.{Number}
use usebin.Yenc.{YFile, State, at_begin, at_data, match_critical_char, match_eq_crlf}
use usebin.Yenc.Libraries.{Libraries}
use usebin.Yenc.Reader.{Decoder}
use usebin.Yenc.Reader.Cuts.{Misses}
use usebin.Yenc.Data.{data_loop}
use usebin.Yenc.Encode.Body.{
  shifted, escaped, line_break, offset_behind, body_text, body_text_ind, escape_wraps, plain_wraps,
  escaping, plainly,
}
use usebin.Yenc.RoundTrip.Steps.{at_text}
use usebin.Yenc.RoundTrip.Tokens.{
  IsReading, rounds, Reads, read_end, read_plain, read_break, read_escaped,
}

-- Whether the last byte of the data is escaped, if there is one.
abbrev pub EndsWith : Bool → Bytes → Type 0
EndsWith critical [] = Unit
EndsWith critical (x ∷ []) = match_critical_char (shifted x) ≡ critical
EndsWith critical (x ∷ y ∷ xs) = EndsWith critical (y ∷ xs)

-- The last byte of the data, if there is one, is not escaped.
abbrev pub EndsPlain : Bytes → Type 0
EndsPlain = EndsWith false

-- the state and the bytes of the token so far, behind the last byte
abbrev pub AtLast : Bool → State → Bytes → Type 0
AtLast true st p = (st ≡ at_data) × (p ≡ [])
AtLast false st p = p ≢ []

-- where the loop is inside a body: the data left, the state, the bytes of the token, the offset
abbrev Ready : Bool → Bytes → State → Bytes → ℕ → Type 0
Ready critical [] st p line_offset = AtLast critical st p × (0 < line_offset)
Ready critical (x ∷ xs) st p line_offset = EndsWith critical (x ∷ xs)

Ready-plain :
    (critical : Bool) (x : ℕ) (xs : Bytes) (st : State) (p : Bytes) (line_offset : ℕ)
    → match_critical_char (shifted x) ≡ false
    → p ≢ []
    → EndsWith critical (x ∷ xs)
    → Ready critical xs st p (line_offset + 1)
Ready-plain true x [] st p line_offset h n r = ground arith
Ready-plain false x [] st p line_offset h n r = (n, omega arith)
Ready-plain critical x (y ∷ xs) st p line_offset h n r = r

Ready-escaped :
    (critical : Bool) (x : ℕ) (xs : Bytes) (line_offset : ℕ)
    → match_critical_char (shifted x) ≡ true
    → EndsWith critical (x ∷ xs)
    → Ready critical xs at_data [] (line_offset + 2)
Ready-escaped true x [] line_offset h r = ((refl, refl), omega arith)
Ready-escaped false x [] line_offset h r = ground arith
Ready-escaped critical x (y ∷ xs) line_offset h r = r

snoc-ne_nil : (p : Bytes) (c : ℕ) → p ++ c ∷ [] ≢ []
snoc-ne_nil [] c e = cc
snoc-ne_nil (d ∷ p) c e = cc

module _ (lib : Libraries) (seed : Option Number) (file : YFile) (tail : Bytes) (goal : Decoder)
    (critical : Bool)
    (at_last : (st : State) (p : Bytes) (w : lib.Writer)
      → IsReading st
      → Misses match_eq_crlf p
      → AtLast critical st p
      → Reads lib seed file goal st (p ++ 10 ∷ tail) w p []) where
  open lib use {Writer, finish}

  abbrev ReadsBody : Bytes → ℕ → Bytes → Type 0
  ReadsBody xs line_offset text =
      (st : State) (p : Bytes) (w : Writer)
      → IsReading st
      → Misses match_eq_crlf p
      → All (λ x. x < 256) xs
      → Ready critical xs st p line_offset
      → Reads lib seed file goal st (p ++ (text ++ tail)) w p xs

  body-end : (line_offset : ℕ) → ReadsBody [] line_offset (line_break (ltb 0 line_offset))
  body-end line_offset st p w i m b (n, l) = rw (ltb-true line_offset l) (at_last st p w i m n)
    where
      ltb-true : (k : ℕ) → 0 < k → ltb 0 k ≡ true
      ltb-true k h = ground arith

  body-plain :
      (wraps : Bool) (x : ℕ) (xs : Bytes) (line_offset : ℕ) (text : Bytes)
      → match_critical_char (shifted x) ≡ false
      → ReadsBody xs (offset_behind wraps line_offset + 1) text
      → ReadsBody (x ∷ xs) line_offset (line_break wraps ++ shifted x ∷ text)
  body-plain false x xs line_offset text h next st p w i m b r =
      read_plain lib seed file goal st p (text ++ tail) xs w x b.0 (
        next st (p ++ shifted x ∷ []) w i
          (All-append (λ c. match_eq_crlf c ≡ false) p (shifted x ∷ []) m (ground arith, tt)) b.1
          (Ready-plain critical x xs st (p ++ shifted x ∷ []) line_offset h
            (snoc-ne_nil p (shifted x)) r))
  body-plain true x xs line_offset text h next st p w i m b r =
      read_break lib seed file goal st p (shifted x) (text ++ tail) (x ∷ xs) w i m (ground arith)
        λ st' w' i'. read_plain lib seed file goal st' [] (text ++ tail) xs w' x b.0 (
          next st' (shifted x ∷ []) w' i' (ground arith, tt) b.1
            (Ready-plain critical x xs st' (shifted x ∷ []) 0 h (snoc-ne_nil [] (shifted x)) r))

  body-escaped :
      (wraps : Bool) (x : ℕ) (xs : Bytes) (line_offset : ℕ) (text : Bytes)
      → match_critical_char (shifted x) ≡ true
      → ReadsBody xs (offset_behind wraps line_offset + 2) text
      → ReadsBody (x ∷ xs) line_offset (line_break wraps ++ 0x3d ∷ escaped x ∷ text)
  body-escaped false x xs line_offset text h next st p w i m b r =
      read_escaped lib seed file goal st p (text ++ tail) xs w x b.0 i m h
        λ w'. next at_data [] w' (inr refl) tt b.1 (Ready-escaped critical x xs line_offset h r)
  body-escaped true x xs line_offset text h next st p w i m b r =
      read_break lib seed file goal st p 0x3d (escaped x ∷ text ++ tail) (x ∷ xs) w i m refl
        λ st' w' i'.
          read_escaped lib seed file goal st' [] (text ++ tail) xs w' x b.0 i' tt h
            λ w''. next at_data [] w'' (inr refl) tt b.1 (Ready-escaped critical x xs 0 h r)

  pub body-reads :
      (line : Number) (xs : Bytes) (line_offset : ℕ)
      → ReadsBody xs line_offset (body_text line xs line_offset)
  body-reads line =
      body_text_ind line ReadsBody body-end
        (λ x xs line_offset.
          body-escaped (escape_wraps line x xs line_offset) x xs line_offset
            (escaping line x xs line_offset))
        λ x xs line_offset.
          body-plain (plain_wraps line x xs line_offset) x xs line_offset
            (plainly line x xs line_offset)

module _ (lib : Libraries) (seed : Option Number) (file : YFile) (tail : Bytes) where
  open lib use {Writer, finish}

  -- Over the lines that `writeBody` writes for data whose last byte, if there is one, is not
  -- escaped, the loop comes back to `State.Begin` with the data written, whatever follows.
  pub data_loop-body_text :
      (line : Number) (xs : Bytes) (w : Writer)
      → All (λ x. x < 256) xs
      → EndsPlain xs
      → (k : ℕ) × (w' : Writer) × ((fuel n : ℕ)
          → data_loop lib seed
              (rounds k n)
              fuel
              w
              (at_text file at_begin (body_text line xs 0 ++ tail))
            ≡ data_loop lib seed n fuel w' (at_text file at_begin tail))
        × (finish w' ≡ finish w ++ xs)
  unfolding body_text
  data_loop-body_text line [] w b e = (0, w, λ fuel n. refl, sym (append-nil (finish w)))
  data_loop-body_text line (x ∷ xs) w b e =
      let (k, w', runs, f) =
        body-reads lib seed file tail (at_text file at_begin tail) false
          (λ st p w i m n. read_end lib seed file tail st p w i m n) line (x ∷ xs) 0 at_begin [] w
          (inl refl) tt b e in
      (suc k, w', runs, f)
