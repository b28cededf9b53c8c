-- ===== src/Utf8/Octets.antt =====
-- An encoding is made of bytes, and has no NUL and no carriage return where the text has none.
use usebin.Base.{
  ℕ, ◌<◌, ◌≢◌, inl, inr, ◌&&◌, List, [], ◌∷◌, arith, Str, All, All-append, Bool-cases,
}
use usebin.Utf8.{is_high, is_low, scalars, encode_scalar, encode_scalars, encode}
use usebin.Utf8.RoundTrip.{IsScalar, scalars-IsScalar}

encode_scalars-All :
    (P Q : ℕ → Type 0)
    → ((c : ℕ) → P c → All Q (encode_scalar c))
    → (cs : List ℕ) → All P cs
    → All Q (encode_scalars cs)
unfolding encode_scalars
encode_scalars-All P Q f [] h = tt
encode_scalars-All P Q f (c ∷ cs) h =
    All-append Q (encode_scalar c) (encode_scalars cs) (f c h.0) (encode_scalars-All P Q f cs h.1)

abbrev IsOctet : ℕ → Type 0
IsOctet b = b < 256

encode_scalar-AreOctets : (c : ℕ) → IsScalar c → All IsOctet (encode_scalar c)
unfolding encode_scalar
encode_scalar-AreOctets c h = ground arith

pub encode-AreOctets : (s : Str) → All (λ u. u < 0x10000) s → All (λ b. b < 256) (encode s)
unfolding encode
encode-AreOctets s h =
    encode_scalars-All IsScalar IsOctet encode_scalar-AreOctets (scalars s) (scalars-IsScalar s h)

-- a code unit that is neither NUL nor a carriage return
abbrev pub IsText : ℕ → Type 0
IsText u = (u < 0x10000) × (u ≢ 0) × (u ≢ 13)

abbrev IsTextScalar : ℕ → Type 0
IsTextScalar c = IsScalar c × (c ≢ 0) × (c ≢ 13)

abbrev IsTextOctet : ℕ → Type 0
IsTextOctet b = (b < 256) × (b ≢ 0) × (b ≢ 13)

scalars-IsText : (s : Str) → All IsText s → All IsTextScalar (scalars s)
unfolding scalars
scalars-IsText [] h = tt
scalars-IsText (u ∷ []) h = ground arith
scalars-IsText (u ∷ v ∷ s) h = elim (Bool-cases (is_high u && is_low v)) [
  | inl e ↦ rw (e, scalars) (ground arith, scalars-IsText s h.1.1)
  | inr e ↦ rw (e, scalars) (ground arith, scalars-IsText (v ∷ s) h.1)
]

encode_scalar-IsText : (c : ℕ) → IsTextScalar c → All IsTextOctet (encode_scalar c)
unfolding encode_scalar
encode_scalar-IsText c h = ground arith

pub encode-IsText : (s : Str) → All IsText s → All (λ b. (b < 256) × (b ≢ 0) × (b ≢ 13)) (encode s)
unfolding encode
encode-IsText s h =
    encode_scalars-All IsTextScalar IsTextOctet encode_scalar-IsText (scalars s)
      (scalars-IsText s h)
