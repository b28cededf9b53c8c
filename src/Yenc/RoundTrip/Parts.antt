-- ===== src/Yenc/RoundTrip/Parts.antt =====
-- The `=ypart` line of `writeHeader`, and what `readHeader` makes of the header lines.
use usebin.Base.{
  ℕ, suc, ◌+◌, ◌≤◌, ◌≡◌, refl, ap, ◌∙◌, true, false, Option, none, some, [], ◌∷◌, ◌++◌, arith,
  Bytes, codes,
}
use usebin.Bytes.Prefix.{has_prefix-starts_with, starts_with-append}
use usebin.Js.Number.{Number, nat, minus, less}
use usebin.Yenc.{YFile, no_fields, at_start, at_begin, ok, ybegin, ypart, match_not_crlf}
use usebin.Yenc.Libraries.{Libraries}
use usebin.Yenc.Reader.{arguments, reading}
use usebin.Yenc.Reader.Bind.{then_do}
use usebin.Yenc.Reader.Cuts.{advance_lem}
use usebin.Yenc.Header.{
  begin_line, part_argument, check_part, consume_part, at_keyword, after_begin, header_round,
  header_loop, check_multipart, read_header,
}
use usebin.Yenc.RoundTrip.Steps.{at_text, skip_breaks}
use usebin.Yenc.RoundTrip.Fields.{
  argument, plain_key-IsKey, arguments-argument, digits-Misses, decimal-IsDigit,
}
use usebin.Yenc.RoundTrip.Headers.{decimal, parse-decimal}

minus-one : (n : ℕ) → minus (nat (n + 1)) (nat 1) ≡ nat n
minus-one n = ground arith

not-below : (a b : ℕ) → b ≤ a → less (nat a) (nat b) ≡ false
not-below a b h = ground arith

-- the arguments of the `=ypart` line
abbrev pub part_arguments : ℕ → ℕ → Bytes → Bytes
part_arguments begin end rest =
    argument (codes "begin") (decimal (begin + 1)) 0x20
      (argument (codes "end") (decimal end) 0x0a rest)

module _ (n begin end : ℕ) (file : YFile) (rest : Bytes) where
  -- the file behind the arguments of the `=ypart` line
  abbrev ranged : YFile
  ranged = record file { begin = some (nat (begin + 1)); end = some (nat end) }

  part_end :
      arguments (suc n) none part_argument tt (
        at_text
          (record file { begin = some (nat (begin + 1)) })
          at_begin
          (argument (codes "end") (decimal end) 0x0a rest))
      ≡ ok (tt, at_text ranged at_begin rest)
  unfolding part_argument
  part_end =
      arguments-argument none (codes "end") (decimal end) rest 0x0a n part_argument tt
        (record file { begin = some (nat (begin + 1)) }) at_begin (plain_key-IsKey _ _ refl)
        (digits-Misses _ (decimal-IsDigit end)) refl
      ∙ rw (parse-decimal end) refl

  part_both :
      arguments
        (suc (suc n))
        none
        part_argument
        tt
        (at_text file at_begin (part_arguments begin end rest))
      ≡ ok (tt, at_text ranged at_begin rest)
  unfolding part_argument
  part_both =
      arguments-argument none (codes "begin") (decimal (begin + 1)) _ 0x20 (suc n) part_argument tt
        file at_begin (plain_key-IsKey _ _ refl) (digits-Misses _ (decimal-IsDigit (begin + 1)))
        refl
      ∙ rw (parse-decimal (begin + 1), not-below (begin + 1) 1 (omega arith)) part_end

  check_ranged :
      (size : ℕ)
      → file.size ≡ some (nat size)
      → begin ≤ end
      → end ≤ size
      → check_part (at_text ranged at_begin rest)
        ≡ ok (
          tt,
          at_text (record file { begin = some (nat begin); end = some (nat end) }) at_begin rest,
        )
  unfolding check_part
  check_ranged size e h k = ground arith

  pub consume_part_lem :
      (size : ℕ)
      → file.size ≡ some (nat size)
      → begin ≤ end
      → end ≤ size
      → consume_part
          (suc (suc n))
          (at_text file at_begin (ypart ++ (part_arguments begin end rest)))
        ≡ ok (
          tt,
          at_text (record file { begin = some (nat begin); end = some (nat end) }) at_begin rest,
        )
  unfolding consume_part
  consume_part_lem size e h k =
      ap (then_do _) (
        advance_lem ypart (part_arguments begin end rest)
          (at_text file at_begin (ypart ++ (part_arguments begin end rest))) refl)
      ∙ ap (then_do _) part_both
      ∙ check_ranged size e h k

module _ (lib : Libraries) (seed : Option Number) (n fuel : ℕ) where
  -- `readHeader` at a `=ybegin` line
  pub read_header_lem :
      (args : Bytes) (file : YFile) (rest : Bytes)
      → begin_line (suc (suc n)) (at_text no_fields at_start (ybegin ++ args))
        ≡ ok (tt, at_text file at_begin rest)
      → read_header lib seed (suc (suc n)) (reading (ybegin ++ args))
        ≡ then_do
            (λ _. check_multipart)
            (after_begin lib seed (suc (suc n)) (at_text file at_begin rest))
  unfolding read_header header_loop header_round
  read_header_lem args file rest e =
      ap
        (λ b.
          then_do (λ _. check_multipart)
            (header_round lib seed at_start b (suc (suc n))
              (header_loop lib seed (suc n) (suc (suc n))) (reading (ybegin ++ args))))
        (has_prefix-starts_with (ybegin ++ args) ybegin ∙ starts_with-append ybegin args)
      ∙ ap
          (λ o.
            then_do (λ _. check_multipart)
              (then_do (λ _. header_loop lib seed (suc n) (suc (suc n))) o))
          e

  -- behind the `=ybegin` line, at a text that does not begin with a line break
  pub after_begin_lem :
      (file : YFile) (c : ℕ) (cs : Bytes)
      → match_not_crlf c ≡ true
      → after_begin lib seed fuel (at_text file at_begin (c ∷ cs))
        ≡ at_keyword lib seed fuel (at_text file at_begin (c ∷ cs))
  unfolding after_begin
  after_begin_lem file c cs h =
      ap (then_do _) (skip_breaks lib seed fuel file at_begin [] c cs tt h)
