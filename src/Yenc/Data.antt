-- ===== src/Yenc/Data.antt =====
-- `decodeData`: the encoded lines up to the `=yend` line.
use usebin.Base.{
  ℕ, zero, suc, true, false, Option, none, some, [], ◌∷◌, ◌==◌, if◌then◌else◌, Bytes, init, last?,
}
use usebin.Bytes.{has_prefix}
use usebin.Js.Number.{Number}
use usebin.Yenc.{
  State, at_start, at_begin, at_escape, at_data, unexpected_eof, spin, byte_add, minus_42,
  minus_106, yend, match_crlf, match_eq_crlf, match_not_crlf,
}
use usebin.Yenc.Libraries.{Libraries}
use usebin.Yenc.Reader.{
  M, ◌>>=◌, ◌>>◌, pure, raise, get_encoded, get_state, get_file, set_file, set_state, advance,
  advance_to,
}
use usebin.Yenc.Trailer.{consume_end}

-- What one round of the loop leads to: the next round with this writer, or the `return`.
pub data Turn {ℓ} (W : Type ℓ) : Type ℓ where
  again : W → Turn W
  return : Turn W

-- `while (encoded.byteLength > 0)`; behind the loop `decodeData` throws
abbrev pub while_left : Bytes → M (Unit {0}) → M (Unit {0})
while_left [] more = raise unexpected_eof
while_left (_ ∷ _) more = more

abbrev pub go_on : {W : Type 0} → (W → M (Unit {0})) → Turn W → M (Unit {0})
go_on more (again w) = more w
go_on more return = pure tt

-- `byteAdd(encoded[0], -106)`; at the end of the input the operand is NaN, whose `>>> 0` is 0
abbrev pub escaped_byte : Bytes → ℕ
escaped_byte [] = 0
escaped_byte (c ∷ cs) = byte_add c minus_106

module _ (lib : Libraries) where
  open lib use {Writer, new_writer, write_byte, finish, crc32_buf}

  -- `for (i = 0; i < token.byteLength - 1; i++) b.writeByte(byteAdd(token[i], -42))`
  unfoldable pub write_plain : Bytes → Writer → Writer
  write_plain [] w = w
  write_plain (c ∷ cs) w = write_plain cs (write_byte w (byte_add c minus_42))

  -- behind a token: its last byte says how to go on; with any other, or none, the loop is left
  unfoldable pub after_token : Option ℕ → Writer → M (Turn Writer)
  after_token none w = raise unexpected_eof
  after_token (some c) w =
      if c == 0x3d
      then (do set_state at_escape; pure (again w))
      else if match_crlf c
      then (do set_state at_begin; pure (again w))
      else raise unexpected_eof

  -- in `State.Begin` or `State.Data`
  unfoldable pub plain_round : Writer → M (Turn Writer)
  plain_round w = do
    token ← advance_to match_eq_crlf false
    after_token (last? token) (write_plain (init token) w)

  -- in `State.Escape`
  unfoldable pub escape_round : Writer → M (Turn Writer)
  escape_round w = do
    encoded ← get_encoded
    _ ← advance 1
    set_state at_data
    pure (again (write_byte w (escaped_byte encoded)))

module _ (lib : Libraries) (crc32seed : Option Number) where
  open lib use {Writer, new_writer, write_byte, finish, crc32_buf}

  -- at the trailer line, which ends the loop
  unfoldable pub end_round : ℕ → Writer → M (Turn Writer)
  end_round fuel w = do
    file ← get_file
    set_file (record file { content = some (finish w) })
    consume_end lib crc32seed fuel
    pure return

  -- in `State.Begin`: the trailer, or data
  unfoldable pub begin_round : ℕ → Writer → M (Turn Writer)
  begin_round fuel w = do
    encoded ← get_encoded
    (if has_prefix encoded yend then end_round fuel w else plain_round lib w)

  -- the rounds by state; in `State.Start` neither branch is taken
  unfoldable pub state_round : State → ℕ → Writer → M (Turn Writer)
  state_round at_start fuel w = pure (again w)
  state_round at_begin fuel w = begin_round fuel w
  state_round at_data fuel w = plain_round lib w
  state_round at_escape fuel w = escape_round lib w

  unfoldable pub data_round : ℕ → Writer → M (Turn Writer)
  data_round fuel w = do _ ← advance_to match_not_crlf true; s ← get_state; state_round s fuel w

  unfoldable pub data_loop : ℕ → ℕ → Writer → M (Unit {0})
  data_loop zero fuel w = λ d. spin
  data_loop (suc rounds) fuel w = do
    encoded ← get_encoded
    while_left encoded (data_round fuel w >>= go_on (data_loop rounds fuel))

  unfoldable pub decode_data : ℕ → M (Unit {0})
  decode_data fuel = data_loop fuel fuel new_writer
