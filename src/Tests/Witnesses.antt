-- ===== src/Tests/Witnesses.antt =====
-- The theorems at concrete inputs.
use usebin.Base.{
  ◌+◌, ◌≡◌, ◌↔◌, All, refl, ◌++◌, true, none, [], ◌∷◌, arith, Bytes, codes, length, drop,
}
use usebin.Utf8.{scalars, all_units}
use usebin.Bytes.{has_prefix, has_prefix_at, from_string, to_string}
use usebin.Bytes.Prefix.{has_prefix_at_iff}
use usebin.Bytes.RoundTrip.{to_string-from_string}
use usebin.Yenc.{YFile, ok, spin, ybegin}
use usebin.Yenc.Encode.{encode}
use usebin.Yenc.Encode.Clean.{encode-IsClean}
use usebin.Yenc.Encode.Lines.{IsClean}
use usebin.Yenc.Libraries.{plain}
use usebin.Yenc.Decode.{decode_within, decode}
use usebin.Yenc.Fuel.Preamble.{after_lines, decode-after_lines}
use usebin.Yenc.Fuel.Endless.{decode_within-endless}
use usebin.Yenc.Fuel.Loops.{decode_within-larger}
use usebin.Tests.YencRuns.{text_file, text_encoded}

decode_within-larger_example :
    decode_within plain none (length text_encoded + 2 + 5) text_encoded
    ≡ decode_within plain none (length text_encoded + 2) text_encoded
decode_within-larger_example = decode_within-larger plain none text_encoded 5

decode_within-endless_example :
    decode_within plain none 1000 (ybegin ++ codes "line=128 size=5 name=abc") ≡ spin
decode_within-endless_example =
    decode_within-endless plain none (codes "line=128 size=5 name=abc") (ground arith) 1000

has_prefix_at_iff_example :
    (has_prefix_at (codes "ab=yend ") (codes "=yend ") 2 ≡ true)
    ↔ ((rest : Bytes) × (drop 2 (codes "ab=yend ") ≡ codes "=yend " ++ rest))
has_prefix_at_iff_example = has_prefix_at_iff (codes "ab=yend ") (codes "=yend ") 2

to_string-from_string_example :
    to_string (from_string (codes "né" ++ 0xd83d ∷ 0xde00 ∷ 0xd83d ∷ []))
    ≡ all_units (scalars (codes "né" ++ 0xd83d ∷ 0xde00 ∷ 0xd83d ∷ []))
unfolding scalars
to_string-from_string_example =
    to_string-from_string (codes "né" ++ 0xd83d ∷ 0xde00 ∷ 0xd83d ∷ []) (omega arith) (omega arith)

decode-after_lines_example :
    decode plain none (after_lines (codes "X-A: b" ∷ [] ∷ []) text_encoded)
    ≡ decode plain none text_encoded
unfolding has_prefix
decode-after_lines_example =
    decode-after_lines plain none (codes "X-A: b" ∷ [] ∷ []) text_encoded
      ((ground arith, refl), ((tt, refl), tt))

encode-IsClean_example :
    (encoded : Bytes) × (full : YFile) × (encode plain text_file ≡ ok (encoded, full))
    × All IsClean encoded
encode-IsClean_example = encode-IsClean plain text_file (ground arith) (ground arith)
