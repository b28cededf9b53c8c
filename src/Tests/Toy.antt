-- ===== src/Tests/Toy.antt =====
-- A platform for the runs: an encoding of bytes in ones and zeros, encryption that appends a tag, and
-- a server that is given.
use usebin.Base.{
  ℕ, zero, suc, ◌+◌, ◌-◌, ◌*◌, ◌%◌, ◌^◌, ◌<◌, ◌≡◌, ◌⊎◌, inl, inr, refl, ap, ◌∙◌, true, Option, none,
  some, List, [], ◌∷◌, ◌++◌, arith, ◌==◌, if◌then◌else◌, Bytes, Str, codes, length, take, replicate,
  All, All-append, length-append, take-length, str_eq,
}
use usebin.Yenc.Libraries.{plain}
use usebin.Client.{Method, Request, Response}
use usebin.Client.Platform.{Platform, is_url_safe}
use usebin.Client.Urls.{strip_padding, to_lower_case}

-- a byte as that many ones and a zero
abbrev pub unary : Bytes → Str
unary [] = []
unary (b ∷ bytes) = replicate b b'1' ++ (b'0' ∷ unary bytes)

abbrev pub also : ℕ → Option Bytes → Option Bytes
also b none = none
also b (some bytes) = some (b ∷ bytes)

abbrev pub counted : ℕ → Str → Option Bytes
counted k [] = some []
counted k (c ∷ s) =
    let end = counted 0 s in let more = counted (suc k) s in if c == b'0' then also k end else more

abbrev pub IsDigit : ℕ → Type 0
IsDigit c = (c ≡ b'1') ⊎ (c ≡ b'0')

replicate-digits : (n : ℕ) → All IsDigit (replicate n b'1')
replicate-digits zero = tt
replicate-digits (suc n) = (inl refl, replicate-digits n)

pub unary-digits : (bytes : Bytes) → All IsDigit (unary bytes)
unary-digits [] = tt
unary-digits (b ∷ bytes) =
    All-append IsDigit (replicate b b'1') _ (replicate-digits b) (inr refl, unary-digits bytes)

counted-ones :
    (k n : ℕ) (s : Str) → counted k (replicate n b'1' ++ (b'0' ∷ s)) ≡ also (k + n) (counted 0 s)
counted-ones k zero s = ap (λ k. also k (counted 0 s)) (omega arith)
counted-ones k (suc n) s = counted-ones (suc k) n s ∙ ap (λ k. also k (counted 0 s)) (omega arith)

pub counted-unary : (bytes : Bytes) → counted 0 (unary bytes) ≡ some bytes
counted-unary [] = refl
counted-unary (b ∷ bytes) =
    counted-ones 0 b (unary bytes)
    ∙ ap (λ k. also k (counted 0 (unary bytes))) {y = b} (omega arith)
    ∙ ap (also b) (counted-unary bytes)

pub strip_digits : (s : Str) → All IsDigit s → strip_padding s ≡ s
unfolding strip_padding
strip_digits [] h = refl
strip_digits (c ∷ s) (hc, h) = rw (strip_digits s h) (by_rest s)
  where
    by_rest :
        (rest : Str)
        → (elim rest [ [] ↦ if c == b'=' then [] else c ∷ [] | d ∷ t ↦ c ∷ d ∷ t ]) ≡ c ∷ rest
    by_rest [] = ground arith
    by_rest (d ∷ t) = refl

pub lower_digits : (s : Str) → All IsDigit s → to_lower_case s ≡ s
unfolding to_lower_case
lower_digits [] h = refl
lower_digits (c ∷ s) (hc, h) = ground (arith, lower_digits s h)

pub digits-safe : (s : Str) → All IsDigit s → All (λ c. is_url_safe c ≡ true) s
digits-safe [] h = tt
digits-safe (c ∷ s) (hc, h) = (ground arith, digits-safe s h)

-- the body that was posted last to a URL
abbrev pub stored : Str → List Request → Option Bytes
stored url [] = none
stored url (r ∷ before) =
    let rest = stored url before in
    elim rest [ some body ↦ some body | none ↦ if str_eq r.url url then some r.body else none ]

abbrev pub answer : ℕ → Bytes → Response
answer status body = record { status = status; status_text = []; body = body }

abbrev pub hand_out : Option Bytes → Option Response
hand_out none = some (answer 404 [])
hand_out (some body) = some (answer 200 body)

-- a server that refuses the first request, takes the others, and hands out what it was sent
abbrev pub busy_server : List Request → Request → Option Response
busy_server before r = elim r.method [
  | Method.get ↦ hand_out (stored r.url before)
  | Method.post ↦ some (answer (elim before [ [] ↦ 503 | _ ↦ 200 ]) [])
]

abbrev pub no_server : List Request → Request → Option Response
no_server before r = none

pub replicate-All : (P : ℕ → Type 0) (n b : ℕ) → P b → All P (replicate n b)
replicate-All P zero b h = tt
replicate-All P (suc n) b h = (h, replicate-All P n b h)

pub opens :
    (tag : ℕ) (bytes : Bytes)
    → ◌≡◌ {A = Option (Option Bytes)}
        (some (some (take (length (bytes ++ replicate 16 tag) - 16) (bytes ++ replicate 16 tag))))
        (some (some bytes))
opens tag bytes =
    ap (λ n. some (some (take n (bytes ++ replicate 16 tag))))
      (omega (arith, length-append bytes (replicate 16 tag)))
    ∙ ap (λ b. some (some b)) (take-length bytes (replicate 16 tag))

-- `tag` is the last byte of what is encrypted
abbrev pub toy : (tag : ℕ) → tag < 256 → (List Request → Request → Option Response) → Platform
toy tag h server = record {
  lib = plain;
  origin = codes "https://a";
  random = λ i. i * 2 ^ 48 % 2 ^ 53;
  respond = server;
  generate_key = λ i. replicate 32 (i % 256);
  secret_box = λ key nonce bytes. bytes ++ replicate 16 tag;
  open_secret_box = λ key nonce box. some (some (take (length box - 16) box));
  sha256_hash = λ bytes. replicate 32 3;
  hex_encode = unary;
  hex_decode = counted 0;
  encode_url_safe = unary;
  decode_url_safe = counted 0;
  decode_uri_component = λ s. some s;
  random-lt = λ i. omega arith;
  length-generate_key = λ i. refl;
  generate_key-AreBytes = λ i. replicate-All (λ b. b < 256) 32 (i % 256) (omega arith);
  length-secret_box = λ key nonce bytes. length-append bytes (replicate 16 tag);
  secret_box-AreBytes = λ key nonce bytes a.
      All-append (λ b. b < 256) bytes (replicate 16 tag) a (replicate-All (λ b. b < 256) 16 tag h);
  open_secret_box-secret_box = λ key nonce bytes k a. opens tag bytes;
  length-sha256_hash = λ bytes. refl;
  sha256_hash-AreBytes = λ bytes. replicate-All (λ b. b < 256) 32 3 (omega arith);
  hex_decode-hex_encode = λ bytes a.
      ap (counted 0) (lower_digits (unary bytes) (unary-digits bytes)) ∙ counted-unary bytes;
  decode_url_safe-nil = refl;
  decode_url_safe-encode_url_safe = λ bytes a.
      ap (counted 0) (strip_digits (unary bytes) (unary-digits bytes)) ∙ counted-unary bytes;
  encode_url_safe_alphabet = λ bytes. digits-safe (unary bytes) (unary-digits bytes);
}
