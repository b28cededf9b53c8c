-- ===== src/Utf8/RoundTrip.antt =====
-- Decoding what was encoded gives the string back, its lone surrogates replaced.
use usebin.Base.{
  ℕ, suc, ◌+◌, ◌-◌, ◌*◌, ◌/◌, ◌%◌, ◌≤◌, ◌<◌, ◌≡◌, ◌≢◌, refl, ap, ◌∙◌, ◌⊎◌, inl, inr, false, [], ◌∷◌,
  ◌++◌, List, ◌==◌, ◌&&◌, if◌then◌else◌, Bool-cases, arith, Bytes, Str, All, All-append, sym,
  append_assoc,
}
use usebin.Utf8.{
  is_high, is_low, lone, join_surrogates, scalars, units, all_units, encode_scalar, encode_scalars,
  encode, idle, lead_of, lead, continue, step, run, strip_bom, decode,
}

abbrev pub IsScalar : ℕ → Type 0
IsScalar c = (c < 0xd800) ⊎ ((0xe000 ≤ c) × (c < 0x110000))

run-more :
    (n lo hi p b q : ℕ) (bs : Bytes)
    → lo ≤ b
    → b ≤ hi
    → q ≡ p * 0x40 + (b - 0x80)
    → run (lead_of (suc (suc n)) lo hi p) (b ∷ bs) ≡ run (lead_of (suc n) 0x80 0xbf q) bs
unfolding run step continue
run-more n lo hi p b q bs l h e = ground arith

run-last :
    (lo hi p b q : ℕ) (bs : Bytes)
    → lo ≤ b
    → b ≤ hi
    → q ≡ p * 0x40 + (b - 0x80)
    → run (lead_of 1 lo hi p) (b ∷ bs) ≡ units q ++ run idle bs
unfolding run step continue
run-last lo hi p b q bs l h e = ground arith

run-lead_two :
    (q : ℕ) (bs : Bytes)
    → 2 ≤ q
    → q < 32
    → run idle ((0xc0 + q) ∷ bs) ≡ run (lead_of 1 0x80 0xbf q) bs
unfolding run step lead
run-lead_two q bs l h = ground arith

run-lead_three :
    (q : ℕ) (bs : Bytes)
    → q < 16
    → run idle ((0xe0 + q) ∷ bs)
      ≡ run (lead_of 2 (if q == 0 then 0xa0 else 0x80) (if q == 13 then 0x9f else 0xbf) q) bs
unfolding run step lead
run-lead_three q bs h = ground arith

run-lead_four :
    (q : ℕ) (bs : Bytes)
    → q < 5
    → run idle ((0xf0 + q) ∷ bs)
      ≡ run (lead_of 3 (if q == 0 then 0x90 else 0x80) (if q == 4 then 0x8f else 0xbf) q) bs
unfolding run step lead
run-lead_four q bs h = ground arith

module _ (c : ℕ) (bs : Bytes) where
  run_ascii : c < 0x80 → run idle (c ∷ bs) ≡ units c ++ run idle bs
  unfolding run step lead units
  run_ascii h = ground arith

  run_two :
      0x80 ≤ c
      → c < 0x800
      → run idle ((0xc0 + c / 0x40) ∷ (0x80 + c % 0x40) ∷ bs) ≡ units c ++ run idle bs
  run_two l h =
      run-lead_two (c / 0x40) _ (omega arith) (omega arith)
      ∙ run-last 0x80 0xbf (c / 0x40) (0x80 + c % 0x40) c bs (omega arith) (omega arith)
          (omega arith)

  run_three :
      0x800 ≤ c
      → c < 0x10000
      → IsScalar c
      → run idle ((0xe0 + c / 0x1000) ∷ (0x80 + c / 0x40 % 0x40) ∷ (0x80 + c % 0x40) ∷ bs)
        ≡ units c ++ run idle bs
  run_three l h s =
      run-lead_three (c / 0x1000) _ (omega arith)
      ∙ run-more 0 (if c / 0x1000 == 0 then 0xa0 else 0x80)
          (if c / 0x1000 == 13 then 0x9f else 0xbf) (c / 0x1000) (0x80 + c / 0x40 % 0x40) (c / 0x40)
          _ (ground arith) (ground arith) (omega arith)
      ∙ run-last 0x80 0xbf (c / 0x40) (0x80 + c % 0x40) c bs (omega arith) (omega arith)
          (omega arith)

  run_four :
      0x10000 ≤ c
      → c < 0x110000
      → run idle (
          (0xf0 + c / 0x40000)
          ∷ (0x80 + c / 0x1000 % 0x40)
          ∷ (0x80 + c / 0x40 % 0x40)
          ∷ (0x80 + c % 0x40)
          ∷ bs)
        ≡ units c ++ run idle bs
  run_four l h =
      run-lead_four (c / 0x40000) _ (omega arith)
      ∙ run-more 1 (if c / 0x40000 == 0 then 0x90 else 0x80)
          (if c / 0x40000 == 4 then 0x8f else 0xbf) (c / 0x40000) (0x80 + c / 0x1000 % 0x40)
          (c / 0x1000) _ (ground arith) (ground arith) (omega arith)
      ∙ run-more 0 0x80 0xbf (c / 0x1000) (0x80 + c / 0x40 % 0x40) (c / 0x40) _ (omega arith)
          (omega arith) (omega arith)
      ∙ run-last 0x80 0xbf (c / 0x40) (0x80 + c % 0x40) c bs (omega arith) (omega arith)
          (omega arith)

run-encode_scalar :
    (c : ℕ) (bs : Bytes) → IsScalar c → run idle (encode_scalar c ++ bs) ≡ units c ++ run idle bs
unfolding encode_scalar
run-encode_scalar c bs h =
    ground (arith, run_ascii c bs, run_two c bs, run_three c bs, run_four c bs)

run-encode_scalars : (cs : List ℕ) → All IsScalar cs → run idle (encode_scalars cs) ≡ all_units cs
unfolding encode_scalars all_units
run-encode_scalars [] h = unfold run in refl
run-encode_scalars (c ∷ cs) (hc, h) =
    run-encode_scalar c (encode_scalars cs) hc ∙ ap (units c ++◌) (run-encode_scalars cs h)

pub scalars-IsScalar : (s : Str) → All (λ u. u < 0x10000) s → All IsScalar (scalars s)
unfolding scalars
scalars-IsScalar [] h = tt
scalars-IsScalar (u ∷ []) h = ground arith
scalars-IsScalar (u ∷ v ∷ s) h = elim (Bool-cases (is_high u && is_low v)) [
  | inl e ↦ rw (e, scalars) (ground arith, scalars-IsScalar s h.1.1)
  | inr e ↦ rw (e, scalars) (ground arith, scalars-IsScalar (v ∷ s) h.1)
]

strip_bom-ne : (a : ℕ) (s : Bytes) → a ≢ 0xef → strip_bom (a ∷ s) ≡ a ∷ s
strip_bom-ne a [] h = refl
strip_bom-ne a (b ∷ []) h = refl
strip_bom-ne a (b ∷ c ∷ s) h = ground arith

strip_bom-encode_scalar :
    (c : ℕ) (bs : Bytes)
    → IsScalar c
    → c ≢ 0xfeff
    → strip_bom (encode_scalar c ++ bs) ≡ encode_scalar c ++ bs
unfolding encode_scalar
strip_bom-encode_scalar c bs h ne =
    ground (arith, strip_bom-ne c bs, strip_bom-ne (0xc0 + c / 0x40) ((0x80 + c % 0x40) ∷ bs))

-- `cs` does not begin with a byte order mark.
abbrev pub NoBom : List ℕ → Type 0
NoBom [] = Unit
NoBom (c ∷ cs) = c ≢ 0xfeff

strip_bom-encode_scalars :
    (cs : List ℕ) → All IsScalar cs → NoBom cs → strip_bom (encode_scalars cs) ≡ encode_scalars cs
unfolding encode_scalars
strip_bom-encode_scalars [] h ne = refl
strip_bom-encode_scalars (c ∷ cs) (hc, h) ne = strip_bom-encode_scalar c (encode_scalars cs) hc ne

-- Decoding the encoding of a string of 16-bit code units that does not begin with a byte order mark
-- gives the string, with each lone surrogate replaced.
pub decode-encode :
    (s : Str)
    → All (λ u. u < 0x10000) s
    → NoBom (scalars s)
    → decode (encode s) ≡ all_units (scalars s)
unfolding decode encode
decode-encode s h ne =
    let ok = scalars-IsScalar s h in
    rw (strip_bom-encode_scalars (scalars s) ok ne) (run-encode_scalars (scalars s) ok)

-- ASCII text is its own encoding and its own decoding.
run-All_ascii : (bs : Bytes) → All (λ b. b < 0x80) bs → run idle bs ≡ bs
unfolding units
run-All_ascii [] h = unfold run in refl
run-All_ascii (b ∷ bs) (hb, h) = run_ascii b bs hb ∙ ground (arith, run-All_ascii bs h)

pub decode_ascii : (bs : Bytes) → All (λ b. b < 0x80) bs → decode bs ≡ bs
unfolding decode
decode_ascii [] h = run-All_ascii [] h
decode_ascii (b ∷ bs) h = rw (strip_bom-ne b bs (λ e. omega arith)) (run-All_ascii (b ∷ bs) h)

abbrev pub NotLowHead : Str → Type 0
NotLowHead [] = Unit
NotLowHead (c ∷ _) = is_low c ≡ false

-- A string may be cut before any code unit but a low surrogate.
scalars-append : (s t : Str) → NotLowHead t → scalars (s ++ t) ≡ scalars s ++ scalars t
unfolding scalars
scalars-append [] t h = refl
scalars-append (u ∷ []) [] h = refl
scalars-append (u ∷ []) (c ∷ t) h = ground arith
scalars-append (u ∷ v ∷ s) t h = elim (Bool-cases (is_high u && is_low v)) [
  | inl e ↦ rw (e, scalars) (ap (join_surrogates u v ∷◌) (scalars-append s t h))
  | inr e ↦ rw (e, scalars) (ap (lone u ∷◌) (scalars-append (v ∷ s) t h))
]

encode_scalars-append :
    (a b : List ℕ) → encode_scalars (a ++ b) ≡ encode_scalars a ++ encode_scalars b
unfolding encode_scalars
encode_scalars-append [] b = refl
encode_scalars-append (c ∷ a) b =
    rw (encode_scalars-append a b) (sym (append_assoc (encode_scalar c) _ _))

pub encode-append : (s t : Str) → NotLowHead t → encode (s ++ t) ≡ encode s ++ encode t
unfolding encode
encode-append s t h = rw (scalars-append s t h) (encode_scalars-append (scalars s) (scalars t))

scalars_ascii : (s : Str) → All (λ u. u < 0x80) s → scalars s ≡ s
unfolding scalars
scalars_ascii [] h = refl
scalars_ascii (u ∷ []) h = ground arith
scalars_ascii (u ∷ v ∷ s) h = ground (arith, scalars_ascii (v ∷ s) h.1)

encode_scalars_ascii : (s : Str) → All (λ u. u < 0x80) s → encode_scalars s ≡ s
unfolding encode_scalars encode_scalar
encode_scalars_ascii [] h = refl
encode_scalars_ascii (u ∷ s) h = ground (arith, encode_scalars_ascii s h.1)

pub encode_ascii : (s : Str) → All (λ u. u < 0x80) s → encode s ≡ s
unfolding encode
encode_ascii s h = rw (scalars_ascii s h) (encode_scalars_ascii s h)

-- A character below 128 stands in the encoding only where it stands in the string.
scalars-ne : (k : ℕ) (s : Str) → k < 0x80 → All (λ u. u ≢ k) s → All (λ c. c ≢ k) (scalars s)
unfolding scalars
scalars-ne k [] lt h = tt
scalars-ne k (u ∷ []) lt h = ground arith
scalars-ne k (u ∷ v ∷ s) lt h = elim (Bool-cases (is_high u && is_low v)) [
  | inl e ↦ rw (e, scalars) (ground arith, scalars-ne k s lt h.1.1)
  | inr e ↦ rw (e, scalars) (ground arith, scalars-ne k (v ∷ s) lt h.1)
]

encode_scalar-ne : (k c : ℕ) → k < 0x80 → c ≢ k → All (λ b. b ≢ k) (encode_scalar c)
unfolding encode_scalar
encode_scalar-ne k c lt h = ground arith

encode_scalars-ne :
    (k : ℕ) (cs : List ℕ) → k < 0x80 → All (λ c. c ≢ k) cs → All (λ b. b ≢ k) (encode_scalars cs)
unfolding encode_scalars
encode_scalars-ne k [] lt h = tt
encode_scalars-ne k (c ∷ cs) lt (hc, h) =
    All-append (λ b. b ≢ k) (encode_scalar c) (encode_scalars cs) (encode_scalar-ne k c lt hc)
      (encode_scalars-ne k cs lt h)

pub encode-ne : (k : ℕ) (s : Str) → k < 0x80 → All (λ u. u ≢ k) s → All (λ b. b ≢ k) (encode s)
unfolding encode
encode-ne k s lt h = encode_scalars-ne k (scalars s) lt (scalars-ne k s lt h)
