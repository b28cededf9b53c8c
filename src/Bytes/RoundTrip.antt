-- ===== src/Bytes/RoundTrip.antt =====
-- `toString` after `fromString`.
use usebin.Base.{◌<◌, ◌≡◌, ◌∙◌, Str, All}
use usebin.Bytes.{from_string, to_string}
use usebin.Utf8.{scalars, all_units}
use usebin.Utf8.RoundTrip.{NoBom, decode-encode}

-- A string of 16-bit code units that does not begin with a byte order mark, turned into bytes by
-- `fromString`, is read by `toString` as the string with each lone surrogate replaced.
pub to_string-from_string :
    (s : Str)
    → All (λ u. u < 0x10000) s
    → NoBom (scalars s)
    → to_string (from_string s) ≡ all_units (scalars s)
unfolding to_string from_string
to_string-from_string = decode-encode

-- In particular a well-formed string, which is one made of the units of its scalar values, is read
-- back as it was.
pub to_string-from_string_well_formed :
    (s : Str)
    → All (λ u. u < 0x10000) s
    → NoBom (scalars s)
    → all_units (scalars s) ≡ s
    → to_string (from_string s) ≡ s
to_string-from_string_well_formed s h b w = to_string-from_string s h b ∙ w
