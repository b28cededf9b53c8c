-- ===== src/Client/Upload/Articles.antt =====
-- What `yEncFileEncode` returns: bytes from which the server's article, and so the page that shows it,
-- gets the encrypted text, unless the last byte of it is one that yEnc escapes.
use usebin.Base.{
  ℕ, ◌+◌, ◌<◌, ◌≡◌, refl, ap, sym, ◌∙◌, true, none, some, arith, Bytes, length, inl, All,
}
use usebin.Yenc.{YFile, YencError, line_max, ok, throw}
use usebin.Yenc.Decode.{decode}
use usebin.Yenc.Encode.Clean.{encode-IsClean}
use usebin.Yenc.Encode.Lines.{IsClean}
use usebin.Yenc.Encode.Refuses.{IsComplete}
use mathlib.Core.Path.{subst}
use usebin.Yenc.Encode.{is_invalid, with_defaults, encode}
use usebin.Yenc.RoundTrip.Body.{EndsWith, EndsPlain}
use usebin.Yenc.RoundTrip.Whole.{
  lacks_name-IsName, not-both, text_of, encode-ok, decode-encode_part,
}
use usebin.Yenc.RoundTrip.Failures.{decode-encode_part_lost}
use usebin.Client.Platform.{Platform, AreBytes}
use usebin.Client.Upload.{article, y_enc_file_encode}
use usebin.Client.Upload.Draws.{
  total_at, part_at, size_at, begin_at, name_at, article_at, range-le, article_lem,
}
use usebin.Client.Upload.Names.{name_at-IsName, name_at-IsText}
use usebin.Client.World.{World, returned}
use usebin.Client.World.Keeps.{bind-returned, bind-lift}

-- the world behind `yEncFileEncode`
abbrev pub after_article : World → World
after_article w = record w { draws = w.draws + 22 + 1 + 1 + 1 + 1 }

module _ (p : Platform) (bytes : Bytes) where
  open p use {lib}

  module _ (d : ℕ) where
    -- `encode` never refuses the record
    pub encode-article_at :
        encode lib (article_at p d bytes)
        ≡ ok (text_of lib (article_at p d bytes), article_at p d bytes)
    unfolding is_invalid with_defaults
    encode-article_at =
        encode-ok lib (article_at p d bytes) (article_at p d bytes)
          (rw (lacks_name-IsName (name_at p d bytes) (name_at-IsName p d bytes)) refl) refl
          (not-both (part_at p d bytes) (total_at p d bytes))

    -- the record has all that `encode` needs
    article_at-IsComplete : IsComplete (article_at p d bytes)
    article_at-IsComplete = (
      λ e. cc,
      λ e. (name_at-IsName p d bytes).not_empty cc,
      λ e. cc,
      λ e. cc,
      inl (λ e. cc, λ e. cc, λ e. cc, λ e. cc),
    )

    pub text_of-IsClean : All IsClean (text_of lib (article_at p d bytes))
    text_of-IsClean =
        let (encoded, full, e, h) =
          encode-IsClean lib (article_at p d bytes) article_at-IsComplete
            (name_at-IsText p d bytes) in
        let same = sym e ∙ encode-article_at in subst (All IsClean) {x = encoded} (cc) h

  y_enc_file_encode-returned :
      (w : World) (encoded : Bytes) (file : YFile)
      → encode lib (article_at p w.draws bytes) ≡ ok (encoded, file)
      → y_enc_file_encode p bytes w ≡ returned encoded (after_article w)
  unfolding y_enc_file_encode
  y_enc_file_encode-returned w encoded file e =
      bind-returned (article p bytes) _ w _ _ (article_lem p bytes w)
      ∙ bind-lift (encode lib (article_at p w.draws bytes)) _ (after_article w) (encoded, file) e

  pub y_enc_file_encode_lem :
      (w : World)
      → y_enc_file_encode p bytes w
        ≡ returned (text_of lib (article_at p w.draws bytes)) (after_article w)
  y_enc_file_encode_lem w = y_enc_file_encode-returned w _ _ (encode-article_at w.draws)

  module _ (d : ℕ) where
    abbrev encoded_at : Bytes
    encoded_at = text_of lib (article_at p d bytes)

    bytes_of :
        (encoded : Bytes)
        → encode lib (article_at p d bytes) ≡ ok (encoded, article_at p d bytes)
        → encoded ≡ encoded_at
    bytes_of encoded e = let e' = sym e ∙ encode-article_at d in cc

    pub decode-encoded_at :
        0 < length bytes
        → AreBytes bytes
        → EndsPlain bytes
        → decode lib none encoded_at ≡ ok (article_at p d bytes)
    decode-encoded_at n h l =
        let (encoded, e, f) =
          decode-encode_part lib (part_at p d bytes) (total_at p d bytes) line_max
            (size_at p d bytes) (begin_at p d bytes) (begin_at p d bytes + length bytes)
            (name_at p d bytes) bytes (name_at-IsName p d bytes) (omega arith) h l refl
            (range-le p d bytes n) in
        ap (decode lib none) (sym (bytes_of encoded e)) ∙ f

    pub decode-encoded_at_lost :
        0 < length bytes
        → AreBytes bytes
        → EndsWith true bytes
        → (e : YencError) × (decode lib none encoded_at ≡ throw e)
    decode-encoded_at_lost n h l =
        let (encoded, e, err, f) =
          decode-encode_part_lost lib (part_at p d bytes) (total_at p d bytes) line_max
            (size_at p d bytes) (begin_at p d bytes) (begin_at p d bytes + length bytes)
            (name_at p d bytes) bytes (λ q. ground arith) (name_at-IsName p d bytes) (omega arith) h
            l refl (range-le p d bytes n) in
        (err, ap (decode lib none) (sym (bytes_of encoded e)) ∙ f)

  module _ (w : World) where
    -- Data that are bytes, at least one, of which the last is not one that is escaped:
    -- `yEncFileEncode` returns bytes, from which `decode` without a seed returns a file whose data are
    -- the data.
    pub decode-y_enc_file_encode :
        0 < length bytes
        → AreBytes bytes
        → EndsPlain bytes
        → (encoded : Bytes) × (w' : World) × (file : YFile) × (y_enc_file_encode p bytes w
            ≡ returned encoded w')
          × (decode lib none encoded ≡ ok file)
          × (file.content ≡ some bytes)
    decode-y_enc_file_encode n h l = (
      encoded_at w.draws,
      after_article w,
      article_at p w.draws bytes,
      y_enc_file_encode_lem w,
      decode-encoded_at w.draws n h l,
      refl,
    )

    -- Data that are bytes, at least one, of which the last is one that is escaped: `yEncFileEncode`
    -- returns bytes on which `decode` without a seed throws.
    pub decode-y_enc_file_encode_lost :
        0 < length bytes
        → AreBytes bytes
        → EndsWith true bytes
        → (encoded : Bytes) × (w' : World) × (e : YencError) × (y_enc_file_encode p bytes w
            ≡ returned encoded w')
          × (decode lib none encoded ≡ throw e)
    decode-y_enc_file_encode_lost n h l =
        let (err, f) = decode-encoded_at_lost w.draws n h l in
        (encoded_at w.draws, after_article w, err, y_enc_file_encode_lem w, f)
