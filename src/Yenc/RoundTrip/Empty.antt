-- ===== src/Yenc/RoundTrip/Empty.antt =====
-- `decode` on a file that is not split and has no data: `readHeader` reads the trailer, and then
-- `decodeData` finds nothing.
use usebin.Base.{ℕ, suc, ◌≡◌, refl, ap, ◌∙◌, inr, false, none, some, [], ◌++◌, Bytes, Str, codes}
use usebin.Bytes.{has_prefix}
use usebin.Bytes.Prefix.{has_prefix-starts_with, starts_with-append}
use usebin.Yenc.{YFile, no_fields, at_begin, ok, throw, unexpected_eof, yend, ypart, ybegin}
use usebin.Yenc.Libraries.{Libraries}
use usebin.Yenc.Reader.{reading}
use usebin.Yenc.Reader.Bind.{then_do}
use usebin.Yenc.Header.{at_keyword, check_multipart, read_header}
use usebin.Yenc.Trailer.{content_of, size_from_header, real_crc}
use usebin.Yenc.Data.{data_loop, decode_data}
use usebin.Yenc.Decode.{decode_within, decode}
use usebin.Yenc.RoundTrip.Steps.{at_text}
use usebin.Yenc.RoundTrip.Headers.{IsName, with_common, common_arguments}
use usebin.Yenc.RoundTrip.Begins.{five_and, begin_line-single}
use usebin.Yenc.RoundTrip.Parts.{read_header_lem, after_begin_lem}
use usebin.Yenc.RoundTrip.Trailers.{consume_end_lem, end_arguments}
use usebin.Yenc.RoundTrip.Files.{trailer}
use usebin.Yenc.RoundTrip.Decodes.{decode-within}

module _ (lib : Libraries) (line : ℕ) (name : Str) (h : IsName name) where
  abbrev begun : YFile
  begun = with_common line 0 name no_fields

  abbrev emptied : YFile
  emptied = record begun { content = some [] }

  abbrev end_text : Bytes
  end_text = trailer lib [] (some (codes "crc32"))

  at_keyword-end :
      (n : ℕ)
      → at_keyword lib none (five_and n) (at_text begun at_begin end_text)
        ≡ ok (tt, at_text emptied at_begin [])
  unfolding at_keyword content_of size_from_header
  at_keyword-end n =
      rw
        (
          not_part,
          has_prefix-starts_with end_text yend
              ∙ starts_with-append yend
                  (end_arguments 0 (real_crc lib none []) (some (codes "crc32"))),
        )
        (consume_end_lem lib (suc (suc (suc n))) emptied at_begin (some (codes "crc32")) (inr refl)
          refl)
    where
      not_part : has_prefix end_text ypart ≡ false
      not_part = has_prefix-starts_with end_text ypart

  read_header-empty :
      (n : ℕ)
      → read_header lib none
          (five_and n)
          (reading (ybegin ++ common_arguments line 0 name end_text))
        ≡ ok (tt, at_text emptied at_begin [])
  read_header-empty n =
      read_header_lem lib none (suc (suc (suc n))) n (common_arguments line 0 name end_text) begun
        end_text (begin_line-single n line 0 name end_text h)
      ∙ ap (then_do (λ _. check_multipart))
          (after_begin_lem lib none n (five_and n) begun 0x3d _ refl ∙ at_keyword-end n)

  -- On the lines that `encode` writes for a file with no data, `decode` throws.
  pub decode_empty :
      decode lib none (ybegin ++ common_arguments line 0 name end_text) ≡ throw unexpected_eof
  unfolding decode_within decode_data data_loop
  decode_empty =
      decode-within lib (ybegin ++ common_arguments line 0 name end_text) 0 (throw unexpected_eof)
        λ n. ap (then_do _) (read_header-empty n)
