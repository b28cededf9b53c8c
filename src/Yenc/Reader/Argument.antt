-- ===== src/Yenc/Reader/Argument.antt =====
-- `readArgument` as a function of the bytes left: it never throws, and takes at least one byte.
use usebin.Base.{
  ℕ, ◌-◌, ◌≤◌, ◌≡◌, refl, ap, ◌∙◌, Bool, true, false, Option, none, some, [], if◌then◌else◌, arith,
  Bytes, Str, length, init, last?,
}
use usebin.Bytes.{to_string}
use usebin.Utf8
use usebin.Yenc.{ok, match_crlf, match_eq_crlf, match_sp_crlf, match_not_eq_crlf}
use usebin.Yenc.Reader.{Decoder, Arg, ends_line, reads_to_eol, read_argument}
use usebin.Yenc.Reader.Bind.{then_do}
use usebin.Yenc.Reader.Cuts.{
  from, through, behind, advance_to-until, advance_to-through, length-from, length-behind,
}

module _ (read_to_eol : Option (Str → Bool)) (bs : Bytes) where
  abbrev pub key_token : Bytes
  key_token = through match_eq_crlf (from match_not_eq_crlf bs)

  abbrev pub behind_key : Bytes
  behind_key = behind match_eq_crlf (from match_not_eq_crlf bs)

  abbrev pub key_of : Str
  key_of = to_string (init key_token)

  abbrev pub stop : ℕ → Bool
  stop = if reads_to_eol read_to_eol key_of then match_crlf else match_sp_crlf

  abbrev pub value_token : Bytes
  value_token = through stop behind_key

  unfoldable pub arg_of : Arg
  arg_of = record {
    key = key_of;
    value = to_string (init value_token);
    at_eol = ends_line (last? value_token);
  }

  unfoldable pub rest_of : Bytes
  rest_of = behind stop behind_key

pub read_argument_lem :
    (read_to_eol : Option (Str → Bool)) (d : Decoder)
    → read_argument read_to_eol d
      ≡ ok (arg_of read_to_eol d.encoded, record d { encoded = rest_of read_to_eol d.encoded })
unfolding read_argument arg_of rest_of
read_argument_lem read_to_eol d =
    ap (then_do _) (advance_to-until match_not_eq_crlf d)
    ∙ ap (then_do _)
        (advance_to-through match_eq_crlf (record d { encoded = from match_not_eq_crlf d.encoded }))
    ∙ ap (then_do _) (
        advance_to-through (stop read_to_eol d.encoded)
          (record d { encoded = behind_key read_to_eol d.encoded }))

pub length-rest_of :
    (read_to_eol : Option (Str → Bool)) (bs : Bytes)
    → length (rest_of read_to_eol bs) ≤ length bs - 1
unfolding rest_of
length-rest_of read_to_eol bs = omega (
  arith,
  length-behind (stop read_to_eol bs) (behind_key read_to_eol bs),
  length-behind match_eq_crlf (from match_not_eq_crlf bs),
  length-from match_not_eq_crlf bs,
)

-- what `readArgument` returns at the end of the input
abbrev pub no_arg : Arg
no_arg = record { key = []; value = []; at_eol = false }

pub arg_of_end : (read_to_eol : Option (Str → Bool)) → arg_of read_to_eol [] ≡ no_arg
unfolding arg_of to_string Utf8.decode Utf8.run
arg_of_end none = refl
arg_of_end (some f) =
    elim (f [])
      as (λ b.
        record {
          key = [];
          value = [];
          at_eol = ends_line (last? (through (if b then match_crlf else match_sp_crlf) []));
        }
        ≡ no_arg) [ true ↦ refl | false ↦ refl ]
