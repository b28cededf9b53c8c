-- ===== src/Client/Download/Plain.antt =====
-- What `main` does with an article, whether plain or encrypted: it shows the text of a plain one, and hangs
-- on one that is cut off inside its first line.
use usebin.Base.{
  ℕ, ◌≤◌, ◌<◌, ◌≡◌, refl, ap, sym, ◌∙◌, false, Option, none, some, [], ◌∷◌, ◌++◌, arith, Bytes, Str,
  length, drop, All,
}
use usebin.Text.Pages.{all_shown, decode_text-all_shown}
use usebin.Text.{decode_text}
use usebin.Charset.{dos437_en}
use usebin.Yenc.{YFile, Outcome, ok, spin, ybegin}
use usebin.Yenc.Decode.{decode, file_of}
use usebin.Yenc.Encode.{encode}
use usebin.Yenc.Fuel.Endless.{Unbroken, decode_within-endless}
use usebin.Yenc.RoundTrip.Body.{EndsPlain}
use usebin.Yenc.RoundTrip.Encodes.{whole_file, whole_range}
use usebin.Yenc.RoundTrip.Headers.{IsName}
use usebin.Yenc.RoundTrip.Whole.{decode-encode_unsplit}
use usebin.Client.{FileInfo, Method, Request, Response, rejected, type_error}
use usebin.Client.Platform.{Platform}
use usebin.Client.Urls.{file_endpoint, encrypted_file_message_id, normalize_lines}
use usebin.Client.Location.{parse_file_url}
use usebin.Client.Download.{
  spell, non_empty, shown_text, fetch_file, fetch_and_decrypt_file, fetch_text,
  fetch_and_display_file, load, main,
}
use usebin.Client.World.{World, C, returned, stuck, lift, or_raise, fetch, ◌>>=◌}
use usebin.Client.Download.Ends.{main-returned, main-stuck}
use usebin.Client.World.Keeps.{then_do, bind-returned, bind-lift, bind-or_raise}

same_bytes :
    (a b : Bytes) (file : YFile)
    → ◌≡◌ {A = Outcome (Bytes × YFile)} (ok (a, file)) (ok (b, file))
    → a ≡ b
same_bytes a b file e = cc

module _ {A B : Type 0} where
  bind-stuck : (m : C A) (f : A → C B) (w : World) → m w ≡ stuck → (m >>= f) w ≡ stuck
  bind-stuck m f w e = ap (then_do f) e

module _ (p : Platform) where
  open p use {lib, origin, respond, decode_uri_component}

  -- the request for an article
  abbrev pub request_for : Str → Request
  request_for id = record { method = Method.get; url = file_endpoint origin id; body = [] }

  abbrev after_request : Str → World → World
  after_request id w = record w { requests = w.requests ++ request_for id ∷ [] }

  abbrev plain_shown : Str → Bytes → World → World
  plain_shown id bytes w = record (after_request id w) {
    page = record w.page { text = all_shown bytes; textbox = normalize_lines (all_shown bytes) };
  }

  module _ (id : Str) (w : World) (resp : Response)
      (got : respond w.requests (request_for id) ≡ some resp) where
    fetch_file-content :
        (file : YFile) (bytes : Bytes)
        → decode lib none resp.body ≡ ok file
        → file.content ≡ some bytes
        → fetch_file p id w ≡ returned bytes (after_request id w)
    unfolding fetch_file fetch
    fetch_file-content file bytes e c =
        bind-or_raise rejected _ _ (after_request id w) resp got
        ∙ bind-lift (decode lib none resp.body) _ (after_request id w) file e
        ∙ ap (λ o. or_raise type_error o (after_request id w)) c

    fetch_file-stuck : decode lib none resp.body ≡ spin → fetch_file p id w ≡ stuck
    unfolding fetch_file fetch
    fetch_file-stuck e =
        bind-or_raise rejected _ _ (after_request id w) resp got
        ∙ bind-stuck (lift (decode lib none resp.body)) (λ file. or_raise type_error file.content)
            (after_request id w) (ap (λ o. lift o (after_request id w)) e)

  decode-endless : (bs : Bytes) → Unbroken bs → decode lib none (ybegin ++ bs) ≡ spin
  unfolding decode
  decode-endless bs h = ap file_of (decode_within-endless lib none bs h _)

  -- the message that is asked for
  abbrev pub id_of : FileInfo → Str
  id_of file = elim (non_empty file.message_id) [
    | none ↦ encrypted_file_message_id (spell file.hash)
    | some id ↦ id
  ]

  fetch_text-stuck :
      (file : FileInfo) (w : World)
      → fetch_file p (id_of file) w ≡ stuck
      → fetch_text p file w ≡ stuck
  unfolding fetch_text fetch_and_decrypt_file
  fetch_text-stuck file w = by_id (non_empty file.message_id)
    where
      by_id :
          (o : Option Str)
          → fetch_file p
              (elim o [ none ↦ encrypted_file_message_id (spell file.hash) | some id ↦ id ])
              w
            ≡ stuck
          → (elim o as (λ _. C Str) [
            | none ↦ fetch_and_decrypt_file p file
            | some id ↦ fetch_file p id >>= λ bytes. shown_text (decode_text bytes dos437_en false)
          ])
              w
            ≡ stuck
      by_id none e = bind-stuck (fetch_file p _) _ w e
      by_id (some id) e = bind-stuck (fetch_file p id) _ w e

  -- A location that names a file, plain or encrypted, for whose article the server answers with bytes
  -- that end inside the `=ybegin` line: `main` never ends.
  pub main-endless :
      (w : World) (file : FileInfo) (resp : Response) (bs : Bytes)
      → parse_file_url p w ≡ returned (some file) w
      → respond w.requests (request_for (id_of file)) ≡ some resp
      → resp.body ≡ ybegin ++ bs
      → Unbroken bs
      → main p w ≡ stuck
  unfolding load fetch_and_display_file
  main-endless w file resp bs e got same h = main-stuck p w (
      bind-returned (parse_file_url p) _ w w (some file) e
      ∙ bind-stuck (fetch_text p file) _ w (
          fetch_text-stuck file w (
            fetch_file-stuck (id_of file) w resp got
              (ap (decode lib none) same ∙ decode-endless bs h))))

  -- what `main` shows of a plain article
  main-shown :
      (w : World) (c : ℕ) (id : Str) (resp : Response) (file : YFile) (bytes : Bytes)
      → parse_file_url p w
        ≡ returned (some (record { key = none; hash = none; message_id = some (c ∷ id) })) w
      → respond w.requests (request_for (c ∷ id)) ≡ some resp
      → decode lib none resp.body ≡ ok file
      → file.content ≡ some bytes
      → All (λ b. b < 256) bytes
      → main p w ≡ returned tt (plain_shown (c ∷ id) bytes w)
  unfolding load fetch_and_display_file fetch_text
  main-shown w c id resp file bytes e got d f h = main-returned p w _ (
      bind-returned (parse_file_url p) _ w w _ e
      ∙ bind-returned (fetch_text p plain) _ w _ (all_shown bytes) (
          bind-returned (fetch_file p (c ∷ id)) _ w _ bytes
            (fetch_file-content (c ∷ id) w resp got file bytes d f)
          ∙ ap (λ s. shown_text s (after_request (c ∷ id) w)) (decode_text-all_shown bytes h)))
    where
      plain : FileInfo
      plain = record { key = none; hash = none; message_id = some (c ∷ id) }

  parse_file_url-plain :
      (w : World) (id : Str)
      → 2 ≤ length w.page.pathname
      → length w.page.fragment ≤ 1
      → decode_uri_component (drop 1 w.page.pathname) ≡ some id
      → parse_file_url p w
        ≡ returned (some (record { key = none; hash = none; message_id = some id })) w
  unfolding parse_file_url
  parse_file_url-plain w id l m e = ground arith

  module _ (w : World) (c : ℕ) (id : Str) (resp : Response) (line x : ℕ) (name : Str)
      (xs : Bytes) where
    -- A location whose path names a message, with no fragment; and a server that answers the request for
    -- its article with what `encode` returns for a file that is not split, with a line length above 2,
    -- a name that the header can carry, and data, not empty, whose last byte is not one that is
    -- escaped. Then `main` ends and shows what the data stand for in code page 437.
    pub main-encode :
        2 ≤ length w.page.pathname
        → length w.page.fragment ≤ 1
        → decode_uri_component (drop 1 w.page.pathname) ≡ some (c ∷ id)
        → respond w.requests (request_for (c ∷ id)) ≡ some resp
        → encode lib (whole_file line (length (x ∷ xs)) name (x ∷ xs))
          ≡ ok (resp.body, whole_range line (length (x ∷ xs)) name (x ∷ xs))
        → IsName name
        → 2 < line
        → All (λ b. b < 256) (x ∷ xs)
        → EndsPlain (x ∷ xs)
        → (v : World) × (main p w ≡ returned tt v)
          × (v.page.text ≡ all_shown (x ∷ xs))
          × (v.page.textbox ≡ normalize_lines (all_shown (x ∷ xs)))
    main-encode l m u got e n k h q =
        let (encoded, f, d) = decode-encode_unsplit lib line x name xs n k h q in
        let same = sym f ∙ e in
        (
          plain_shown (c ∷ id) (x ∷ xs) w,
          main-shown w c id resp _ (x ∷ xs) (parse_file_url-plain w (c ∷ id) l m u) got
              (ap (decode lib none) (sym (same_bytes _ _ _ same)) ∙ d) refl h,
          refl,
          refl,
        )
