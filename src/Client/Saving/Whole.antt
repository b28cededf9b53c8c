-- ===== src/Client/Saving/Whole.antt =====
-- From the page that saves a text to the page that shows it: `handleTrySave` posts the text and pushes
-- a URL, and `main` in a page at that URL shows the text.
use usebin.Base.{
  ℕ, ◌≤◌, ◌<◌, ◌≡◌, ◌≢◌, refl, ap, ◌∙◌, none, some, List, [], arith, Bytes, Str, codes, true, All,
}
use usebin.Bytes.{from_string}
use usebin.Utf8.{scalars, all_units}
use usebin.Utf8.Octets.{encode-AreOctets}
use usebin.Utf8.RoundTrip.{NoBom, decode-encode}
use usebin.Yenc.RoundTrip.Body.{EndsPlain, EndsWith}
use usebin.Yenc.Decode.{decode}
use usebin.Client.{Request, Response, at_origin}
use usebin.Client.Platform.{Platform}
use usebin.Client.Urls.{normalize_lines, path_of, fragment_of}
use usebin.Client.Location.{push_state, parse_file_url}
use usebin.Client.Location.RoundTrip.{parse_file_url-located}
use usebin.Client.Upload.{nonce, hash_of}
use usebin.Client.Upload.Draws.{article_at}
use usebin.Client.Upload.Articles.{decode-encoded_at, decode-encoded_at_lost}
use usebin.Client.Upload.Rounds.{Refused, encrypted_at, request_at}
use usebin.Client.Download.{load, main}
use usebin.Client.Download.Shows.{
  get_request, displayed, fetch_and_display_file_lem, fetch_and_display_file-throws,
}
use usebin.Client.Saving.{finish_save, handle_try_save}
use usebin.Client.World.{World, returned}
use usebin.Client.World.Keeps.{bind-returned}
use usebin.Client.Saving.Posted.{sum, placed, sum-AreBytes, sum-pos, key-pos, finish_save-accepted}
use usebin.Client.Saving.Visits.{started, start_save-unsaved, visit}
use usebin.Client.Download.Ends.{main-returned, main-threw}

module _ (p : Platform) (s : Str) (w u : World) (n : ℕ) (posted resp : Response)
    (before : List Request) where
  open p use {
    lib, respond, generate_key, sha256_hash, length-generate_key, generate_key-AreBytes,
    length-secret_box, secret_box-AreBytes, length-sha256_hash, sha256_hash-AreBytes,
  }

  abbrev encrypted : Bytes
  encrypted = encrypted_at p (from_string s) u

  -- the world after the save
  abbrev pub saved : World
  saved = placed p (from_string s) u

  handle_try_save-saved :
      w.page.textbox ≡ s
      → s ≢ []
      → w.page.text ≢ s
      → n ≤ 3
      → Refused p (from_string s) n (started s w) u
      → respond u.requests (request_at p (from_string s) u) ≡ some posted
      → posted.status ≡ 200
      → handle_try_save p w ≡ returned tt saved
  unfolding handle_try_save
  handle_try_save-saved e ne un l r a ok =
      ap (λ x. finish_save p x.0 (record w { page = x.1 })) (start_save-unsaved w.page s e ne un)
      ∙ finish_save-accepted p s n (started s w) u posted l r a ok

  main-saved :
      All (λ c. c < 0x10000) s
      → NoBom (scalars s)
      → EndsPlain encrypted
      → respond before (get_request p (hash_of p encrypted)) ≡ some resp
      → resp.body ≡ (request_at p (from_string s) u).body
      → (v : World) × (main p (visit before saved) ≡ returned tt v)
        × (v.page.text ≡ all_units (scalars s))
        × (v.page.textbox ≡ normalize_lines (all_units (scalars s)))
  unfolding load hash_of from_string
  main-saved h m l got same =
      let opened = visit before saved in
      let key = generate_key u.keys in
      let bytes = from_string s in
      let octets = encode-AreOctets s h in
      (
        displayed p (hash_of p encrypted) bytes opened,
        main-returned p opened _ (
            bind-returned (parse_file_url p) _ opened opened _ (
              parse_file_url-located p (sum p bytes u) key opened (sum-AreBytes p (from_string s) u)
                (generate_key-AreBytes u.keys) (sum-pos p (from_string s) u)
                (key-pos p (from_string s) u))
            ∙ fetch_and_display_file_lem p (sum p bytes u) key bytes opened resp
                (article_at p u.draws encrypted) got
                (ap (decode lib none) same
                  ∙ decode-encoded_at p encrypted u.draws
                      (omega (arith, length-secret_box key nonce bytes))
                      (secret_box-AreBytes key nonce bytes octets) l)
                refl (length-generate_key u.keys) octets),
        decode-encode s h m,
        ap normalize_lines (decode-encode s h m),
      )

  main-saved_lost :
      All (λ c. c < 0x10000) s
      → EndsWith true encrypted
      → respond before (get_request p (hash_of p encrypted)) ≡ some resp
      → resp.body ≡ (request_at p (from_string s) u).body
      → (v : World) × (main p (visit before saved) ≡ returned tt v)
        × (v.page ≡ at_origin (codes "/") [])
  unfolding load hash_of from_string push_state path_of fragment_of
  main-saved_lost h l got same =
      let opened = visit before saved in
      let key = generate_key u.keys in
      let bytes = from_string s in
      let (err, refused) =
        decode-encoded_at_lost p encrypted u.draws
          (omega (arith, length-secret_box key nonce bytes))
          (secret_box-AreBytes key nonce bytes (encode-AreOctets s h)) l in
      (
        _,
        main-threw p opened _ _ (
            bind-returned (parse_file_url p) _ opened opened _ (
              parse_file_url-located p (sum p bytes u) key opened (sum-AreBytes p (from_string s) u)
                (generate_key-AreBytes u.keys) (sum-pos p (from_string s) u)
                (key-pos p (from_string s) u))
            ∙ fetch_and_display_file-throws p (sum p bytes u) key opened resp err got
                (ap (decode lib none) same ∙ refused)),
        refl,
      )

  -- A page whose text box holds a text, not empty, that is not the one saved last; a server that answers
  -- one of the first four requests by 200, and those before it otherwise; an encrypted text whose last
  -- byte yEnc does not escape; and the server's answer to the request for its article, whose body is
  -- what was posted. Then `handleTrySave` ends, and `main`, in a page that is opened at the location it
  -- leaves, ends and shows the text, with each lone surrogate replaced. The text is made of 16-bit
  -- code units and does not begin with a byte order mark.
  pub main-handle_try_save :
      w.page.textbox ≡ s
      → s ≢ []
      → w.page.text ≢ s
      → All (λ c. c < 0x10000) s
      → NoBom (scalars s)
      → n ≤ 3
      → Refused p (from_string s) n (started s w) u
      → respond u.requests (request_at p (from_string s) u) ≡ some posted
      → posted.status ≡ 200
      → EndsPlain (encrypted_at p (from_string s) u)
      → respond before (get_request p (hash_of p (encrypted_at p (from_string s) u))) ≡ some resp
      → resp.body ≡ (request_at p (from_string s) u).body
      → (w' : World) × (v : World) × (handle_try_save p w ≡ returned tt w')
        × (main p (visit before w') ≡ returned tt v)
        × (v.page.text ≡ all_units (scalars s))
        × (v.page.textbox ≡ normalize_lines (all_units (scalars s)))
  main-handle_try_save e ne un h m l r a ok ends got same =
      let (v, loads, text, box) = main-saved h m ends got same in
      (saved, v, handle_try_save-saved e ne un l r a ok, loads, text, box)

  -- As before, but the last byte of the encrypted text is one that yEnc escapes, and the text may begin
  -- with any code unit. Then `handleTrySave` ends as well, but `main`, in a page that is opened at the
  -- location it leaves, ends with an empty page at the origin: the text is lost.
  pub main-handle_try_save_lost :
      w.page.textbox ≡ s
      → s ≢ []
      → w.page.text ≢ s
      → All (λ c. c < 0x10000) s
      → n ≤ 3
      → Refused p (from_string s) n (started s w) u
      → respond u.requests (request_at p (from_string s) u) ≡ some posted
      → posted.status ≡ 200
      → EndsWith true (encrypted_at p (from_string s) u)
      → respond before (get_request p (hash_of p (encrypted_at p (from_string s) u))) ≡ some resp
      → resp.body ≡ (request_at p (from_string s) u).body
      → (w' : World) × (v : World) × (handle_try_save p w ≡ returned tt w')
        × (main p (visit before w') ≡ returned tt v)
        × (v.page ≡ at_origin (codes "/") [])
  main-handle_try_save_lost e ne un h l r a ok ends got same =
      let (v, loads, empty) = main-saved_lost h ends got same in
      (saved, v, handle_try_save-saved e ne un l r a ok, loads, empty)
