-- ===== src/Client/Download/Shows.antt =====
-- The page shows the text of an encrypted file whose article the server hands out.
use usebin.Base.{◌≡◌, ap, ◌∙◌, none, some, [], ◌∷◌, ◌++◌, Bytes, Str, length}
use usebin.Utf8
use usebin.Yenc.{YFile, YencError, ok, throw}
use usebin.Yenc.Decode.{decode}
use usebin.Client.{Method, Request, Response, rejected, type_error, yenc_error}
use usebin.Client.Platform.{Platform, AreBytes}
use usebin.Client.Urls.{to_lower_case, file_endpoint, encrypted_file_message_id, normalize_lines}
use usebin.Client.Location.RoundTrip.{info_of}
use usebin.Client.Upload.{nonce}
use usebin.Client.Download.{fetch_file, fetch_and_decrypt_file, fetch_text, fetch_and_display_file}
use usebin.Client.World.{World, returned, threw, lift, or_raise, fetch}
use usebin.Client.World.Keeps.{bind-returned, bind-threw, bind-lift, bind-or_raise}

module _ (p : Platform) where
  open p use {
    lib, origin, respond, hex_encode, secret_box, open_secret_box, open_secret_box-secret_box,
  }

  -- the request for the article of a file with this hash
  abbrev pub get_request : Str → Request
  get_request hash = record {
    method = Method.get;
    url = file_endpoint origin (encrypted_file_message_id hash);
    body = [];
  }

  abbrev pub after_get : Str → World → World
  after_get hash w = record w { requests = w.requests ++ get_request hash ∷ [] }

  -- the world in which the text is shown
  abbrev pub displayed : Str → Bytes → World → World
  displayed hash bytes w = record (after_get hash w) {
    page = record w.page {
      text = Utf8.decode bytes;
      textbox = normalize_lines (Utf8.decode bytes);
    };
  }

  module _ (sum key bytes : Bytes) (w : World) (resp : Response) (file : YFile)
      (got : respond w.requests (get_request (to_lower_case (hex_encode sum))) ≡ some resp)
      (decoded : decode lib none resp.body ≡ ok file)
      (content : file.content ≡ some (secret_box key nonce bytes)) (key_fits : length key ≡ 32)
      (are_bytes : AreBytes bytes) where
    abbrev hash : Str
    hash = to_lower_case (hex_encode sum)

    fetch_file_lem :
        fetch_file p (encrypted_file_message_id hash) w
        ≡ returned (secret_box key nonce bytes) (after_get hash w)
    unfolding fetch_file fetch
    fetch_file_lem =
        bind-or_raise rejected _ _ (after_get hash w) resp got
        ∙ bind-lift (decode lib none resp.body) _ (after_get hash w) file decoded
        ∙ ap (λ o. or_raise type_error o (after_get hash w)) content

    fetch_text_lem :
        fetch_text p (info_of p sum key) w ≡ returned (Utf8.decode bytes) (after_get hash w)
    unfolding fetch_text fetch_and_decrypt_file
    fetch_text_lem =
        bind-returned (fetch_file p (encrypted_file_message_id hash)) _ w _ _ fetch_file_lem
        ∙ bind-or_raise type_error _ _ (after_get hash w) _
            (open_secret_box-secret_box key nonce bytes key_fits are_bytes)

    pub fetch_and_display_file_lem :
        fetch_and_display_file p (info_of p sum key) w ≡ returned tt (displayed hash bytes w)
    unfolding fetch_and_display_file
    fetch_and_display_file_lem =
        bind-returned (fetch_text p (info_of p sum key)) _ w _ _ fetch_text_lem

  module _ (sum key : Bytes) (w : World) (resp : Response) (err : YencError)
      (got : respond w.requests (get_request (to_lower_case (hex_encode sum))) ≡ some resp)
      (refused : decode lib none resp.body ≡ throw err) where
    abbrev name : Str
    name = to_lower_case (hex_encode sum)

    fetch_file-throws :
        fetch_file p (encrypted_file_message_id name) w ≡ threw (yenc_error err) (after_get name w)
    unfolding fetch_file fetch
    fetch_file-throws =
        bind-or_raise rejected _ _ (after_get name w) resp got
        ∙ bind-threw (lift (decode lib none resp.body)) (λ file. or_raise type_error file.content)
            (after_get name w) _ _ (ap (λ o. lift o (after_get name w)) refused)

    -- An article that `decode` refuses is not shown.
    pub fetch_and_display_file-throws :
        fetch_and_display_file p (info_of p sum key) w ≡ threw (yenc_error err) (after_get name w)
    unfolding fetch_and_display_file fetch_text fetch_and_decrypt_file
    fetch_and_display_file-throws =
        bind-threw (fetch_text p (info_of p sum key)) _ w _ _
          (bind-threw (fetch_file p (encrypted_file_message_id name)) _ w _ _ fetch_file-throws)
