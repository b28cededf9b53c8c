-- ===== src/Utf8.antt =====
-- `TextEncoder` and `TextDecoder` with their default options, as the WHATWG Encoding Standard has
-- them: UTF-8 with replacement, and a leading byte order mark dropped by the decoder. They are the
-- platform's; frontend/bytes.ts and frontend/usebin.ts call them.
pub mod RoundTrip
pub mod Octets
use usebin.Base.{
  ℕ, zero, suc, ◌+◌, ◌-◌, ◌*◌, ◌/◌, ◌%◌, ◌≡◌, refl, Bool, true, false, ◌&&◌, [], ◌∷◌, ◌++◌, List,
  ltb, leb, ◌==◌, if◌then◌else◌, Bytes, Str, codes,
}

abbrev pub is_high : ℕ → Bool
is_high u = leb 0xd800 u && leb u 0xdbff

abbrev pub is_low : ℕ → Bool
is_low u = leb 0xdc00 u && leb u 0xdfff

abbrev pub replacement : ℕ
replacement = 0xfffd

-- a code unit on its own: a lone surrogate is replaced
abbrev pub lone : ℕ → ℕ
lone u = if leb 0xd800 u && leb u 0xdfff then replacement else u

abbrev pub join_surrogates : ℕ → ℕ → ℕ
join_surrogates u v = 0x10000 + ((u - 0xd800) * 0x400 + (v - 0xdc00))

-- the scalar values of a string of UTF-16 code units
unfoldable pub scalars : Str → List ℕ
scalars [] = []
scalars (u ∷ []) = lone u ∷ []
scalars (u ∷ v ∷ s) = elim (is_high u && is_low v) [
  | true ↦ join_surrogates u v ∷ scalars s
  | false ↦ lone u ∷ scalars (v ∷ s)
]

-- the code units of a scalar value
unfoldable pub units : ℕ → Str
units c =
    if ltb c 0x10000
    then c ∷ []
    else (0xd800 + (c - 0x10000) / 0x400) ∷ (0xdc00 + (c - 0x10000) % 0x400) ∷ []

unfoldable pub all_units : List ℕ → Str
all_units [] = []
all_units (c ∷ cs) = units c ++ all_units cs

-- the bytes of a scalar value
unfoldable pub encode_scalar : ℕ → Bytes
encode_scalar c =
    if ltb c 0x80
    then c ∷ []
    else if ltb c 0x800
    then (0xc0 + c / 0x40) ∷ (0x80 + c % 0x40) ∷ []
    else if ltb c 0x10000
    then (0xe0 + c / 0x1000) ∷ (0x80 + c / 0x40 % 0x40) ∷ (0x80 + c % 0x40) ∷ []
    else (0xf0 + c / 0x40000)
      ∷ (0x80 + c / 0x1000 % 0x40)
      ∷ (0x80 + c / 0x40 % 0x40)
      ∷ (0x80 + c % 0x40)
      ∷ []

unfoldable pub encode_scalars : List ℕ → Bytes
encode_scalars [] = []
encode_scalars (c ∷ cs) = encode_scalar c ++ encode_scalars cs

-- `new TextEncoder().encode(s)`
unfoldable pub encode : Str → Bytes
encode s = encode_scalars (scalars s)

-- The decoder's state: the continuation bytes still needed, the range of the next one, and the bits
-- read so far.
pub record Decoder : Type 0 where
  pub needed : ℕ
  pub lower : ℕ
  pub upper : ℕ
  pub point : ℕ

abbrev pub idle : Decoder
idle = record { needed = 0; lower = 0x80; upper = 0xbf; point = 0 }

abbrev pub lead_of : ℕ → ℕ → ℕ → ℕ → Decoder
lead_of n lo hi c = record { needed = n; lower = lo; upper = hi; point = c }

-- what a step writes, and the next state
abbrev Step : Type 0
Step = Str × Decoder

-- a byte where no continuation is needed
unfoldable pub lead : ℕ → Str × Decoder
lead b =
    if ltb b 0x80
    then (b ∷ [], idle)
    else if ltb b 0xc2
    then (replacement ∷ [], idle)
    else if ltb b 0xe0
    then ([], lead_of 1 0x80 0xbf (b - 0xc0))
    else if ltb b 0xf0
    then (
      [],
      lead_of 2 (if b == 0xe0 then 0xa0 else 0x80) (if b == 0xed then 0x9f else 0xbf) (b - 0xe0),
    )
    else if ltb b 0xf5
    then (
      [],
      lead_of 3 (if b == 0xf0 then 0x90 else 0x80) (if b == 0xf4 then 0x8f else 0xbf) (b - 0xf0),
    )
    else (replacement ∷ [], idle)

-- a byte inside a sequence; one out of range ends it, and is read again as a lead
unfoldable pub continue : ℕ → ℕ → Decoder → Str × Decoder
continue n b d =
    if leb d.lower b && leb b d.upper
    then (if n == 0
        then (units (d.point * 0x40 + (b - 0x80)), idle)
        else ([], lead_of n 0x80 0xbf (d.point * 0x40 + (b - 0x80))))
    else let (out, d') = lead b in (replacement ∷ out, d')

unfoldable pub step : Decoder → ℕ → Str × Decoder
step d b = elim d.needed [ zero ↦ lead b | suc n ↦ continue n b d ]

unfoldable pub run : Decoder → Bytes → Str
run d [] = elim d.needed [ zero ↦ [] | suc _ ↦ replacement ∷ [] ]
run d (b ∷ bs) = let (out, d') = step d b in out ++ run d' bs

-- a byte order mark in front is dropped
abbrev pub strip_bom : Bytes → Bytes
strip_bom (a ∷ b ∷ c ∷ s) = if a == 0xef && b == 0xbb && c == 0xbf then s else a ∷ b ∷ c ∷ s
strip_bom s = s

-- `new TextDecoder().decode(bytes)`
unfoldable pub decode : Bytes → Str
decode bs = run idle (strip_bom bs)

encodes :
    encode (codes "aé€" ++ 0xd83d ∷ 0xde00 ∷ 0xd83d ∷ [])
    ≡ 0x61 ∷ 0xc3 ∷ 0xa9 ∷ 0xe2 ∷ 0x82 ∷ 0xac ∷ 0xf0 ∷ 0x9f ∷ 0x98 ∷ 0x80 ∷ 0xef ∷ 0xbf ∷ 0xbd ∷ []
unfolding encode encode_scalars encode_scalar scalars
encodes = refl

decodes :
    decode (0xef ∷ 0xbb ∷ 0xbf ∷ 0xf0 ∷ 0x9f ∷ 0x98 ∷ 0x80 ∷ 0xc3 ∷ 0x41 ∷ 0xe2 ∷ 0x82 ∷ [])
    ≡ 0xd83d ∷ 0xde00 ∷ 0xfffd ∷ 0x41 ∷ 0xfffd ∷ []
unfolding decode run step continue lead units
decodes = refl
