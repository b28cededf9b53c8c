-- ===== src/Yenc/Libraries.antt =====
-- What frontend/yenc.ts calls of `@stablelib/bytewriter` and `crc-32`, with what it relies on: a
-- writer holds the bytes written to it, in order.
use usebin.Base.{ℕ, ◌<◌, ◌≡◌, refl, Option, [], ◌∷◌, ◌++◌, ℤ, pos, Bytes}
use usebin.Js.Number.{Number}

pub record Libraries : Type 1 where
  pub Writer : Type 0
  pub new_writer : Writer
  pub write : Writer → Bytes → Writer
  pub write_byte : Writer → ℕ → Writer
  pub finish : Writer → Bytes
  -- `crc32.buf(data, seed)`, a signed 32-bit number
  pub crc32_buf : Bytes → Option Number → ℤ
  pub finish-new_writer : finish new_writer ≡ []
  pub finish-write : (w : Writer) (bs : Bytes) → finish (write w bs) ≡ finish w ++ bs
  pub finish-write_byte :
      (w : Writer) (b : ℕ) → b < 256 → finish (write_byte w b) ≡ finish w ++ b ∷ []

-- A writer that is its bytes, and a checksum that is always the same.
abbrev pub plain : Libraries
plain = record {
  Writer = Bytes;
  new_writer = [];
  write = λ w bs. w ++ bs;
  write_byte = λ w b. w ++ b ∷ [];
  finish = λ w. w;
  crc32_buf = λ bs seed. pos 0xbeef;
  finish-new_writer = refl;
  finish-write = λ w bs. refl;
  finish-write_byte = λ w b h. refl;
}
