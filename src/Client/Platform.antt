-- ===== src/Client/Platform.antt =====
-- What frontend/usebin.ts takes from the browser and from `@stablelib`, with what it relies on.
--   `Math.random()` is a multiple of 2^-53 below 1; `random i` is the numerator of the i-th draw.
--   A server answers a request by what it was sent before; `none` stands for a rejected `fetch`.
use usebin.Base.{
  ℕ, ◌+◌, ◌^◌, ◌<◌, ◌≡◌, Option, some, List, [], Bytes, Str, length, All, Bool, true, ◌&&◌, ◌||◌,
  ◌==◌, leb,
}
use usebin.Yenc.Libraries.{Libraries}
use usebin.Client.{Request, Response}
use usebin.Client.Urls.{strip_padding, to_lower_case}

abbrev pub AreBytes : Bytes → Type 0
AreBytes = All (λ b. b < 256)

-- a character of the URL-safe base 64 alphabet, or the padding
abbrev pub is_url_safe : ℕ → Bool
is_url_safe c =
    (leb b'a' c && leb c b'z')
    || (leb b'A' c && leb c b'Z')
    || (leb b'0' c && leb c b'9')
    || c == b'-'
    || c == b'_'
    || c == b'='

pub record Platform : Type 1 where
  pub lib : Libraries
  pub origin : Str
  pub random : ℕ → ℕ
  pub respond : List Request → Request → Option Response
  -- nacl, with the i-th key that is generated
  pub generate_key : ℕ → Bytes
  pub secret_box : Bytes → Bytes → Bytes → Bytes
  -- `none` where it throws, `some none` for `null`
  pub open_secret_box : Bytes → Bytes → Bytes → Option (Option Bytes)
  pub sha256_hash : Bytes → Bytes
  pub hex_encode : Bytes → Str
  pub hex_decode : Str → Option Bytes
  pub encode_url_safe : Bytes → Str
  pub decode_url_safe : Str → Option Bytes
  pub decode_uri_component : Str → Option Str
  pub random-lt : (i : ℕ) → random i < 2 ^ 53
  pub length-generate_key : (i : ℕ) → length (generate_key i) ≡ 32
  pub generate_key-AreBytes : (i : ℕ) → AreBytes (generate_key i)
  pub length-secret_box :
      (key nonce bytes : Bytes) → length (secret_box key nonce bytes) ≡ length bytes + 16
  pub secret_box-AreBytes :
      (key nonce bytes : Bytes) → AreBytes bytes → AreBytes (secret_box key nonce bytes)
  pub open_secret_box-secret_box :
      (key nonce bytes : Bytes)
      → length key ≡ 32
      → AreBytes bytes
      → open_secret_box key nonce (secret_box key nonce bytes) ≡ some (some bytes)
  pub length-sha256_hash : (bytes : Bytes) → length (sha256_hash bytes) ≡ 32
  pub sha256_hash-AreBytes : (bytes : Bytes) → AreBytes (sha256_hash bytes)
  pub hex_decode-hex_encode :
      (bytes : Bytes) → AreBytes bytes → hex_decode (to_lower_case (hex_encode bytes)) ≡ some bytes
  pub decode_url_safe-nil : decode_url_safe [] ≡ some []
  pub decode_url_safe-encode_url_safe :
      (bytes : Bytes)
      → AreBytes bytes
      → decode_url_safe (strip_padding (encode_url_safe bytes)) ≡ some bytes
  pub encode_url_safe_alphabet :
      (bytes : Bytes) → All (λ c. is_url_safe c ≡ true) (encode_url_safe bytes)
