-- ===== src/Yenc/RoundTrip/Decodes.antt =====
-- `decode` on the whole text of `encode`.
use usebin.Base.{
  ℕ, suc, ◌+◌, ◌<◌, ◌≡◌, sym, ap, ◌∙◌, Option, none, some, [], ◌++◌, arith, Bytes, Str, All, length,
}
use usebin.Js.Number.{Number, nat}
use usebin.Yenc.{YencError, throw, Outcome, YFile, at_begin, ok}
use usebin.Yenc.Libraries.{Libraries}
use usebin.Yenc.Reader.{Decoder, get_file, reading}
use usebin.Yenc.Reader.Bind.{then_do}
use usebin.Yenc.Header.{read_header}
use usebin.Yenc.Trailer.{size_from_header}
use usebin.Yenc.Data.{data_loop, decode_data}
use usebin.Yenc.Decode.{file_of, decode_within, decode}
use usebin.Yenc.Fuel.Loops.{decode_within-larger}
use usebin.Yenc.Encode.Body.{body_text}
use usebin.Yenc.RoundTrip.Steps.{at_text}
use usebin.Yenc.RoundTrip.Tokens.{rounds}
use usebin.Yenc.RoundTrip.Body.{EndsPlain}
use usebin.Yenc.RoundTrip.Lost.{LostOn}
use usebin.Yenc.RoundTrip.Begins.{five_and}
use usebin.Yenc.RoundTrip.Trailers.{HasSumKey}
use usebin.Yenc.RoundTrip.Files.{trailer, with_content, data_loop-file, rounds-five_and, rounds-add}

module _ (lib : Libraries) where
  open lib use {new_writer}

  -- `decode` by a run under a bound of some form
  pub decode-within :
      (encoded : Bytes) (k : ℕ) (o : Outcome (YFile × Decoder))
      → ((n : ℕ) → decode_within lib none (five_and (rounds k n)) encoded ≡ o)
      → decode lib none encoded ≡ file_of o
  unfolding decode
  decode-within encoded k o h = ap file_of (
      sym (decode_within-larger lib none encoded (k + 5))
      ∙ ap (λ fuel. decode_within lib none fuel encoded)
          (omega (arith, rounds-add k (length encoded + 2)))
      ∙ h (length encoded + 2))

  -- header lines that lead to the body, and then the body and the trailer
  pub decode-header :
      (encoded : Bytes) (file : YFile) (line : Number) (xs : Bytes) (key : Option Str)
      → ((n : ℕ)
          → read_header lib none (five_and n) (reading encoded)
            ≡ ok (tt, at_text file at_begin (body_text line xs 0 ++ trailer lib xs key)))
      → All (λ x. x < 256) xs
      → EndsPlain xs
      → HasSumKey key
      → size_from_header (with_content lib file line xs key xs) ≡ some (nat (length xs))
      → decode lib none encoded ≡ ok (record file { content = some xs })
  unfolding decode_within decode_data
  decode-header encoded file line xs key header b p h e =
      let (k, runs) = data_loop-file lib file line xs key b p h e in
      decode-within encoded k
        (ok (
          record file { content = some xs },
          at_text (record file { content = some xs }) at_begin [],
        ))
        λ n.
          ap (then_do _) (header (rounds k n))
          ∙ ap (then_do (λ _. get_file)) (
              ap
                (λ x.
                  data_loop lib none x (five_and (rounds k n)) new_writer
                    (at_text file at_begin (body_text line xs 0 ++ trailer lib xs key)))
                (sym (rounds-five_and k n))
              ∙ runs (suc (suc (suc (rounds k n)))) (suc (suc (suc (suc n)))))

  -- header lines that lead to a text on which the loop throws
  pub decode-header_lost :
      (encoded : Bytes) (file : YFile) (text : Bytes)
      → ((n : ℕ)
          → read_header lib none (five_and n) (reading encoded)
            ≡ ok (tt, at_text file at_begin text))
      → LostOn lib file text
      → (e : YencError) × (decode lib none encoded ≡ throw e)
  unfolding decode_within decode_data
  decode-header_lost encoded file text header (k, e, runs) = (
    e,
    decode-within encoded k (throw e) λ n.
        ap (then_do _) (header (rounds k n))
        ∙ ap (then_do (λ _. get_file)) (
            ap
              (λ x.
                data_loop lib none x (five_and (rounds k n)) new_writer
                  (at_text file at_begin text))
              (sym (rounds-five_and k n))
            ∙ runs (five_and (rounds k n)) (suc (suc (suc (suc n))))),
  )
