-- ===== src/Yenc/Fuel/Endless.antt =====
-- Inputs on which `decode` never returns: a keyword line that the input ends in.
use usebin.Base.{
  ℕ, zero, suc, ◌≡◌, refl, ap, ◌∙◌, Bool, false, Option, some, [], ◌∷◌, ◌++◌, arith, Bytes, Str,
  All, last?,
}
use usebin.Bytes.Prefix.{has_prefix-starts_with, starts_with-append}
use usebin.Js.Number.{Number}
use usebin.Yenc.{spin, ybegin, match_crlf, match_eq_crlf, match_not_eq_crlf, at_start}
use usebin.Yenc.Libraries.{Libraries}
use usebin.Yenc.Reader.{Decoder, ◌>>◌, ends_line, next, arguments, reading, get_file}
use usebin.Yenc.Reader.Bind.{then_do}
use usebin.Yenc.Reader.Cuts.{from, through, behind, advance_lem}
use usebin.Yenc.Reader.Argument.{read_argument_lem, rest_of, arg_of, behind_key, stop}
use usebin.Yenc.Header.{
  set_field, begin_argument, is_name, begin_line, header_round, header_loop, read_header,
  check_multipart,
}
use usebin.Yenc.Data.{decode_data}
use usebin.Yenc.Decode.{decode_within}

-- no line break
abbrev pub Unbroken : Bytes → Type 0
Unbroken = All (λ c. match_crlf c ≡ false)

module _ (p : ℕ → Bool) where
  from-Unbroken : (bs : Bytes) → Unbroken bs → Unbroken (from p bs)
  from-Unbroken [] h = tt
  from-Unbroken (c ∷ bs) h = ground (arith, from-Unbroken bs)

  behind-Unbroken : (bs : Bytes) → Unbroken bs → Unbroken (behind p bs)
  behind-Unbroken [] h = tt
  behind-Unbroken (c ∷ bs) h = ground (arith, behind-Unbroken bs)

  through-Unbroken : (bs : Bytes) → Unbroken bs → Unbroken (through p bs)
  through-Unbroken [] h = tt
  through-Unbroken (c ∷ bs) h = ground (arith, through-Unbroken bs)

Unbroken-ends_line : (bs : Bytes) → Unbroken bs → ends_line (last? bs) ≡ false
Unbroken-ends_line [] h = refl
Unbroken-ends_line (c ∷ []) h = h.0
Unbroken-ends_line (c ∷ b ∷ bs) h = Unbroken-ends_line (b ∷ bs) h.1

module _ (read_to_eol : Option (Str → Bool)) (bs : Bytes) (h : Unbroken bs) where
  key-Unbroken : Unbroken (behind_key read_to_eol bs)
  key-Unbroken = behind-Unbroken match_eq_crlf _ (from-Unbroken match_not_eq_crlf bs h)

  rest_of-Unbroken : Unbroken (rest_of read_to_eol bs)
  unfolding rest_of
  rest_of-Unbroken = behind-Unbroken (stop read_to_eol bs) _ key-Unbroken

  arg_of-at_eol : (arg_of read_to_eol bs).at_eol ≡ false
  unfolding arg_of
  arg_of-at_eol = Unbroken-ends_line _ (through-Unbroken (stop read_to_eol bs) _ key-Unbroken)

begin_arguments-spin :
    (fuel : ℕ) (d : Decoder)
    → Unbroken d.encoded
    → arguments fuel (some is_name) begin_argument tt d ≡ spin
unfolding arguments begin_argument
begin_arguments-spin zero d h = refl
begin_arguments-spin (suc fuel) d h =
    let arg = arg_of (some is_name) d.encoded in
    let rest = rest_of (some is_name) d.encoded in
    ap (then_do _) (read_argument_lem (some is_name) d)
    ∙ ap
        (λ b.
          next b tt (arguments fuel (some is_name) begin_argument tt)
            (record d { encoded = rest; file = set_field arg d.file }))
        (arg_of-at_eol (some is_name) d.encoded h)
    ∙ begin_arguments-spin fuel (record d { encoded = rest; file = set_field arg d.file })
        (rest_of-Unbroken (some is_name) d.encoded h)

module _ (lib : Libraries) (seed : Option Number) (bs : Bytes) (h : Unbroken bs) where
  begin_line-spin : (fuel : ℕ) → begin_line fuel (reading (ybegin ++ bs)) ≡ spin
  unfolding begin_line
  begin_line-spin fuel =
      ap (then_do _) (advance_lem ybegin bs (reading (ybegin ++ bs)) refl)
      ∙ ap (then_do _) (begin_arguments-spin fuel (reading bs) h)

  header_loop-spin :
      (rounds fuel : ℕ) → header_loop lib seed rounds fuel (reading (ybegin ++ bs)) ≡ spin
  unfolding header_loop header_round
  header_loop-spin zero fuel = refl
  header_loop-spin (suc rounds) fuel =
      ap
        (λ b.
          header_round lib seed at_start b fuel (header_loop lib seed rounds fuel)
            (reading (ybegin ++ bs)))
        (has_prefix-starts_with (ybegin ++ bs) ybegin ∙ starts_with-append ybegin bs)
      ∙ ap (then_do _) (begin_line-spin fuel)

-- `decode` never returns and never throws on an input that ends inside its `=ybegin` line: under no
-- bound on the rounds do its loops end.
pub decode_within-endless :
    (lib : Libraries) (seed : Option Number) (bs : Bytes)
    → Unbroken bs
    → (fuel : ℕ) → decode_within lib seed fuel (ybegin ++ bs) ≡ spin
unfolding decode_within read_header
decode_within-endless lib seed bs h fuel =
    ap
      (λ o. then_do (λ _. decode_data lib seed fuel >> get_file) (then_do (λ _. check_multipart) o))
      (header_loop-spin lib seed bs h fuel fuel)
