-- ===== src/Yenc/RoundTrip/Trailers.antt =====
-- `consumeEnd` on the line that `writeTrailer` writes.
use usebin.Base.{
  ℕ, suc, ◌-◌, ◌≡◌, refl, ap, ◌∙◌, ◌⊎◌, inl, inr, Bool, true, false, Option, none, some, [], ◌++◌,
  arith, Bytes, Str, codes, All, All-append, length, replicate, ◌&&◌,
}
use usebin.Bytes.{to_string}
use usebin.Js.Number.{nat, opt_eq, num_eq-nat_self}
use usebin.Js.Parse.{parse_int}
use usebin.Js.Print.{nat_to_string, pad_start}
use usebin.Js.Print.RoundTrip.{
  IsDigit, replicate-IsDigit, nat_to_string-IsDigit, parse_int-pad_start,
}
use usebin.Yenc.{YFile, State, ok, yend}
use usebin.Yenc.Libraries.{Libraries}
use usebin.Yenc.Reader.{arguments}
use usebin.Yenc.Reader.Bind.{then_do}
use usebin.Yenc.Reader.Cuts.{advance_lem}
use usebin.Yenc.Trailer.{content_of, size_from_header, end_argument, real_crc, consume_end}
use usebin.Yenc.RoundTrip.Steps.{at_text}
use usebin.Yenc.RoundTrip.Fields.{
  argument, plain_key-IsKey, arguments-argument, digits-Misses, digits-ascii, decimal-IsDigit,
  to_string_ascii,
}
use usebin.Yenc.RoundTrip.Headers.{decimal, parse-decimal}

-- a checksum as `writeTrailer` prints it
abbrev pub hex_sum : ℕ → Str
hex_sum crc = pad_start 8 b'0' (nat_to_string 16 crc)

pub hex_sum-IsDigit : (crc : ℕ) → All (IsDigit 16) (hex_sum crc)
unfolding pad_start
hex_sum-IsDigit crc =
    All-append (IsDigit 16) (replicate (8 - length (nat_to_string 16 crc)) b'0') _
      (replicate-IsDigit (8 - length (nat_to_string 16 crc)))
      (nat_to_string-IsDigit 16 (omega arith) (omega arith) crc)

parse-hex_sum : (crc : ℕ) → parse_int (some 16) (to_string (hex_sum crc)) ≡ nat crc
parse-hex_sum crc =
    ap (parse_int (some 16)) (to_string_ascii (hex_sum crc) (digits-ascii _ (hex_sum-IsDigit crc)))
    ∙ parse_int-pad_start 8 crc

-- the `=yend` line with no checksum, or with one
abbrev pub end_arguments : ℕ → ℕ → Option Str → Bytes
end_arguments size crc none = argument (codes "size") (decimal size) 0x0a []
end_arguments size crc (some key) =
    argument (codes "size") (decimal size) 0x20 (argument key (hex_sum crc) 0x0a [])

-- the keys that a checksum is written under
abbrev pub IsSumKey : Str → Type 0
IsSumKey key = (key ≡ codes "pcrc32") ⊎ (key ≡ codes "crc32")

abbrev pub HasSumKey : Option Str → Type 0
HasSumKey none = Unit
HasSumKey (some key) = IsSumKey key

and_false : (b : Bool) → b && false ≡ false
and_false true = refl
and_false false = refl

module _ (crc n : ℕ) (file : YFile) (st : State) where
  size_body :
      (has eol : Bool) (rest : Bytes)
      → size_from_header file ≡ some (nat (length (content_of file)))
      → end_argument crc
          (record {
            key = codes "size";
            value = to_string (decimal (length (content_of file)));
            at_eol = eol;
          })
          has
          (at_text file st rest)
        ≡ ok (true, at_text file st rest)
  unfolding end_argument
  size_body has eol rest e =
      rw (parse-decimal (length (content_of file)), e, num_eq-nat_self (length (content_of file)))
        refl

  pcrc_body :
      (eol : Bool) (rest : Bytes)
      → end_argument crc
          (record { key = codes "pcrc32"; value = to_string (hex_sum crc); at_eol = eol })
          true
          (at_text file st rest)
        ≡ ok (true, at_text file st rest)
  unfolding end_argument
  pcrc_body eol rest = rw (parse-hex_sum crc, num_eq-nat_self crc) refl

  crc_body :
      (eol : Bool) (rest : Bytes)
      → end_argument crc
          (record { key = codes "crc32"; value = to_string (hex_sum crc); at_eol = eol })
          true
          (at_text file st rest)
        ≡ ok (true, at_text file st rest)
  unfolding end_argument
  crc_body eol rest =
      rw
        (
          parse-hex_sum crc,
          num_eq-nat_self crc,
          and_false (opt_eq (some (nat (length (content_of file)))) file.size),
        )
        refl

  end_sum :
      (key : Str)
      → IsSumKey key
      → arguments
          (suc n)
          none
          (end_argument crc)
          true
          (at_text file st (argument key (hex_sum crc) 0x0a []))
        ≡ ok (true, at_text file st [])
  end_sum key (inl e) = rw e (
      arguments-argument none (codes "pcrc32") (hex_sum crc) [] 0x0a n (end_argument crc) true file
        st (plain_key-IsKey _ _ refl) (digits-Misses _ (hex_sum-IsDigit crc)) refl
      ∙ ap (then_do _) (pcrc_body true []))
  end_sum key (inr e) = rw e (
      arguments-argument none (codes "crc32") (hex_sum crc) [] 0x0a n (end_argument crc) true file
        st (plain_key-IsKey _ _ refl) (digits-Misses _ (hex_sum-IsDigit crc)) refl
      ∙ ap (then_do _) (crc_body true []))

  end_all :
      (key : Option Str)
      → HasSumKey key
      → size_from_header file ≡ some (nat (length (content_of file)))
      → arguments
          (suc (suc n))
          none
          (end_argument crc)
          false
          (at_text file st (end_arguments (length (content_of file)) crc key))
        ≡ ok (true, at_text file st [])
  end_all none k e =
      arguments-argument none (codes "size") (decimal (length (content_of file))) [] 0x0a (suc n)
        (end_argument crc) false file st (plain_key-IsKey _ _ refl)
        (digits-Misses _ (decimal-IsDigit (length (content_of file)))) refl
      ∙ ap (then_do _) (size_body false true [] e)
  end_all (some key) k e =
      arguments-argument none (codes "size") (decimal (length (content_of file)))
        (argument key (hex_sum crc) 0x0a []) 0x20 (suc n) (end_argument crc) false file st
        (plain_key-IsKey _ _ refl) (digits-Misses _ (decimal-IsDigit (length (content_of file))))
        refl
      ∙ ap (then_do _) (size_body false false (argument key (hex_sum crc) 0x0a []) e)
      ∙ end_sum key k

module _ (lib : Libraries) (n : ℕ) (file : YFile) (st : State) where
  -- `consumeEnd` accepts the line of a file with these data, whose length is the one announced.
  pub consume_end_lem :
      (key : Option Str)
      → HasSumKey key
      → size_from_header file ≡ some (nat (length (content_of file)))
      → consume_end lib none (suc (suc n)) (
          at_text file st (
            yend
            ++ end_arguments (length (content_of file)) (real_crc lib none (content_of file)) key))
        ≡ ok (tt, at_text file st [])
  unfolding consume_end
  consume_end_lem key k e =
      let crc = real_crc lib none (content_of file) in
      let args = end_arguments (length (content_of file)) crc key in
      ap (then_do _) (advance_lem yend args (at_text file st (yend ++ args)) refl)
      ∙ ap (then_do _) (end_all crc n file st key k e)
