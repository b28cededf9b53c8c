-- ===== src/Yenc/Encode/Clean.antt =====
-- What `encode` returns, the header and trailer lines included, can stand in an article.
use usebin.Base.{
  ℕ, suc, ◌<◌, ◌≡◌, refl, sym, Bool, true, false, ◌&&◌, Option, none, some, [], ◌∷◌, ◌++◌,
  if◌then◌else◌, arith, pos, negsuc, Bytes, Str, codes, All, All-append, All-map_imp, length,
}
use mathlib.Core.Path.{subst}
use usebin.Bytes.{from_string}
use usebin.Utf8.Octets.{IsText, encode-IsText}
use usebin.Js.Number.{Number, nan, num, nat, less, opt_eq, to_number, to_uint32}
use usebin.Js.Print.{nat_to_string, to_string, opt_to_string}
use usebin.Js.Print.RoundTrip.{IsDigit, digit_bounds, nat_to_string-IsDigit, pad_start-IsDigit}
use usebin.Yenc.{YFile, line_max, ok}
use usebin.Yenc.Libraries.{Libraries}
use usebin.Yenc.Trailer.{is_set, content_of}
use usebin.Yenc.Encode as Encode
use usebin.Yenc.Encode.{
  is_falsy, name_of, succ, is_invalid, with_defaults, header_text, write_header, write_body,
  crc_text, write_trailer,
}
use usebin.Yenc.Encode.Written.{finish-write_body}
use usebin.Yenc.Encode.Refuses.{IsComplete, complete-valid, returned, encode-is_invalid}
use usebin.Yenc.Encode.Lines.{IsClean, body_text-IsClean}

from_string-IsClean : (s : Str) → All IsText s → All IsClean (from_string s)
unfolding from_string
from_string-IsClean = encode-IsText

digits-IsText : (radix : ℕ) → radix < 17 → (s : Str) → All (IsDigit radix) s → All IsText s
digits-IsText radix r s h = All-map_imp (λ c (d, lt, e). ground (arith, digit_bounds d)) s h

-- a text that can be printed into a line of the article
record IsPlain (s : Str) : Type 0 where
  units : All IsText s

infixl 5 ◌then◌
◌then◌ : {a b : Str} → IsPlain a → IsPlain b → IsPlain (a ++ b)
◌then◌ {a} {b} h i = record { units = All-append IsText a b h.units i.units }

test-IsPlain : {a b : Str} (c : Bool) → IsPlain a → IsPlain b → IsPlain (if c then a else b)
test-IsPlain true h i = h
test-IsPlain false h i = i

literal-IsPlain : (s : Str) → All IsText s → IsPlain s
literal-IsPlain s h = record { units = h }

nat_to_string-IsPlain : (n : ℕ) → IsPlain (nat_to_string 10 n)
nat_to_string-IsPlain n = record {
  units = digits-IsText 10 (omega arith) _ (nat_to_string-IsDigit 10 (omega arith) (omega arith) n);
}

to_string-IsPlain : (n : Number) → IsPlain (to_string n)
unfolding to_string
to_string-IsPlain nan = literal-IsPlain (codes "NaN") (ground arith)
to_string-IsPlain (num (pos n)) = nat_to_string-IsPlain n
to_string-IsPlain (num (negsuc n)) =
    literal-IsPlain (codes "-") (ground arith) then nat_to_string-IsPlain (suc n)

opt_to_string-IsPlain : (n : Option Number) → IsPlain (opt_to_string n)
opt_to_string-IsPlain none = literal-IsPlain (codes "undefined") (ground arith)
opt_to_string-IsPlain (some n) = to_string-IsPlain n

module _ (file : YFile) (named : All IsText (name_of file)) where
  header_text-IsPlain : IsPlain (header_text file)
  unfolding header_text
  header_text-IsPlain =
      test-IsPlain (is_set file.total)
        (literal-IsPlain (codes "=ybegin part=") (ground arith)
          then opt_to_string-IsPlain file.part
          then literal-IsPlain (codes " total=") (ground arith)
          then opt_to_string-IsPlain file.total
          then literal-IsPlain (codes " line=") (ground arith)
          then opt_to_string-IsPlain file.line
          then literal-IsPlain (codes " size=") (ground arith)
          then opt_to_string-IsPlain file.size
          then literal-IsPlain (codes " name=") (ground arith)
          then literal-IsPlain (name_of file) named
          then literal-IsPlain (codes "\n=ypart begin=") (ground arith)
          then to_string-IsPlain (succ (to_number file.begin))
          then literal-IsPlain (codes " end=") (ground arith)
          then opt_to_string-IsPlain file.end
          then literal-IsPlain (codes "\n") (ground arith))
        (literal-IsPlain (codes "=ybegin line=") (ground arith)
          then opt_to_string-IsPlain file.line
          then literal-IsPlain (codes " size=") (ground arith)
          then opt_to_string-IsPlain file.size
          then literal-IsPlain (codes " name=") (ground arith)
          then literal-IsPlain (name_of file) named
          then literal-IsPlain (codes "\n") (ground arith))

with_defaults-name_of : (file : YFile) → name_of (with_defaults file) ≡ name_of file
unfolding with_defaults
with_defaults-name_of file = by_tests (is_falsy file.line) (is_set file.total)
  where
    by_tests :
        (b c : Bool)
        → name_of (
            let lined = if b then record file { line = some (nat line_max) } else file in
            if c then lined else record lined { begin = some (nat 0); end = file.size })
          ≡ name_of file
    by_tests true true = refl
    by_tests true false = refl
    by_tests false true = refl
    by_tests false false = refl

module _ (lib : Libraries) where
  open lib use {
    Writer, new_writer, write, write_byte, finish, crc32_buf, finish-new_writer, finish-write,
    finish-write_byte,
  }

  -- what has been written is clean
  record HoldsClean (b : Writer) : Type 0 where
    bytes : All IsClean (finish b)

  written-HoldsClean :
      (b : Writer) (s : Str) → HoldsClean b → IsPlain s → HoldsClean (write b (from_string s))
  written-HoldsClean b s h i = record {
    bytes =
        subst (All IsClean) (sym (finish-write b (from_string s)))
          (All-append IsClean (finish b) (from_string s) h.bytes (from_string-IsClean s i.units));
  }

  test-HoldsClean :
      {a b : Writer} (c : Bool) → HoldsClean a → HoldsClean b → HoldsClean (if c then a else b)
  test-HoldsClean true h i = h
  test-HoldsClean false h i = i

  body-HoldsClean :
      (line : Number) (xs : Bytes) (b : Writer)
      → HoldsClean b
      → HoldsClean (write_body lib line xs 0 b)
  body-HoldsClean line xs b h = record {
    bytes =
        subst (All IsClean) (sym (finish-write_body lib line xs 0 b))
          (All-append IsClean (finish b) _ h.bytes (body_text-IsClean line xs 0));
  }

  break-HoldsClean : (b : Writer) → HoldsClean b → HoldsClean (write_byte b 0x0a)
  break-HoldsClean b h = record {
    bytes =
        subst (All IsClean) (sym (finish-write_byte b 0x0a (omega arith)))
          (All-append IsClean (finish b) (0x0a ∷ []) h.bytes (ground arith));
  }

  crc_text-IsPlain : (xs : Bytes) → IsPlain (crc_text lib xs)
  unfolding crc_text
  crc_text-IsPlain xs = record {
    units = digits-IsText 16 (omega arith) _ (pad_start-IsDigit 8 (to_uint32 (crc32_buf xs none)));
  }

  trailer-HoldsClean :
      (file : YFile) (b : Writer) → HoldsClean b → HoldsClean (write_trailer lib file b)
  unfolding write_trailer
  trailer-HoldsClean file b h =
      let sum = crc_text-IsPlain (content_of file) in
      let sized = written-HoldsClean b _ h (
        literal-IsPlain (codes "=yend size=") (ground arith)
        then to_string-IsPlain (nat (length (content_of file)))) in
      let with_part =
        test-HoldsClean (is_set file.total && less (to_number file.part) (to_number file.total))
          (written-HoldsClean _ _ sized
            (literal-IsPlain (codes " pcrc32=") (ground arith) then sum))
          sized in
      break-HoldsClean _ (
        test-HoldsClean (opt_eq file.part file.total)
          (written-HoldsClean _ _ with_part
            (literal-IsPlain (codes " crc32=") (ground arith) then sum))
          with_part)

  header-HoldsClean :
      (file : YFile) → All IsText (name_of file) → HoldsClean (write_header lib file new_writer)
  unfolding write_header
  header-HoldsClean file h =
      written-HoldsClean new_writer _
        (record { bytes = subst (All IsClean) (sym finish-new_writer) tt })
        (header_text-IsPlain file h)

  -- A record that is complete, whichever its numbers, whose name has 16-bit units and no NUL and no
  -- carriage return: `encode` returns bytes, of which none is a NUL or a carriage return.
  pub encode-IsClean :
      (file : YFile)
      → IsComplete file
      → All IsText (name_of file)
      → (encoded : Bytes) × (full : YFile) × (Encode.encode lib file ≡ ok (encoded, full))
        × All IsClean encoded
  encode-IsClean file h named =
      let full = with_defaults file in
      let whole = trailer-HoldsClean full _ (
        body-HoldsClean (to_number full.line) (content_of full) _
          (header-HoldsClean full (subst (All IsText) (sym (with_defaults-name_of file)) named))) in
      (
        (returned lib file).0,
        full,
        encode-is_invalid lib file false (complete-valid file h),
        whole.bytes,
      )
