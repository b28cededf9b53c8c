-- ===== src/Client/Download/Kept.antt =====
-- What the calls that load a file, and the end of a save, keep: any relation between worlds that sending
-- a request, or moving to a URL, keeps.
use usebin.Base.{false, Option, none, some, [], Bytes, Str}
use usebin.Charset.{dos437_en}
use usebin.Text.{Shown, text, unknown_code_page, decode_text}
use usebin.Utf8
use usebin.Yenc.Decode.{decode}
use usebin.Client.{FileInfo, Method, type_error, code_page_error}
use usebin.Client.Platform.{Platform}
use usebin.Client.Urls.{file_endpoint}
use usebin.Client.Location.{push_state, show_url}
use usebin.Client.Upload.{nonce}
use usebin.Client.Download.{non_empty, shown_text, fetch_file, fetch_and_decrypt_file, fetch_text}
use usebin.Client.World.{World, C, fetch, ◌>>=◌}
use usebin.Client.World.Keeps.{
  Keeps, Preorder, Keeps-pure, Keeps-raise, Keeps-lift, Keeps-or_raise, Keeps-bind,
}

module _ {R : World → World → Type 0} (po : Preorder R) (p : Platform) where
  open p use {lib, origin, open_secret_box}

  pub Keeps-show_url :
      ((url : Str) → Keeps R (push_state url)) → (file : FileInfo) → Keeps R (show_url p file)
  unfolding show_url
  Keeps-show_url moves file = Keeps-bind po _ _ (Keeps-or_raise po _ file.hash) (λ hash.
      Keeps-bind po _ _ (Keeps-or_raise po _ _)
        (λ sum. Keeps-bind po _ _ (Keeps-or_raise po _ file.key) (λ key. moves _)))

  module _
      (sends : (id : Str)
        → Keeps R (
            fetch p
              (record { method = Method.get; url = file_endpoint origin id; body = [] }))) where
    Keeps-fetch_file : (id : Str) → Keeps R (fetch_file p id)
    unfolding fetch_file
    Keeps-fetch_file id = Keeps-bind po _ _ (sends id) (λ resp.
        Keeps-bind po _ _ (Keeps-lift po (decode lib none resp.body))
          (λ file. Keeps-or_raise po _ file.content))

    Keeps-fetch_and_decrypt_file : (file : FileInfo) → Keeps R (fetch_and_decrypt_file p file)
    unfolding fetch_and_decrypt_file
    Keeps-fetch_and_decrypt_file file = Keeps-bind po _ _ (Keeps-fetch_file _) (λ encrypted.
        Keeps-bind po _ _ (Keeps-or_raise po _ file.key) (λ key.
          Keeps-bind {A = Option Bytes} po _ _
            (Keeps-or_raise po type_error (open_secret_box key nonce encrypted))
            (λ opened.
              Keeps-bind {A = Bytes} po _ _ (Keeps-or_raise po type_error opened)
                (λ decrypted. Keeps-pure po (Utf8.decode decrypted)))))

    Keeps-shown_text : (s : Shown) → Keeps R (shown_text s)
    Keeps-shown_text (text s) = Keeps-pure po s
    Keeps-shown_text (unknown_code_page page) = Keeps-raise po (code_page_error page)

    pub Keeps-fetch_text : (file : FileInfo) → Keeps R (fetch_text p file)
    unfolding fetch_text
    Keeps-fetch_text file = by_id (non_empty file.message_id)
      where
        by_id :
            (o : Option Str)
            → Keeps R (elim o as (λ _. C Str) [
              | none ↦ fetch_and_decrypt_file p file
              | some message_id ↦ fetch_file p message_id >>= λ bytes.
                  shown_text (decode_text bytes dos437_en false)
            ])
        by_id none = Keeps-fetch_and_decrypt_file file
        by_id (some message_id) =
            Keeps-bind po _ _ (Keeps-fetch_file message_id) (λ bytes. Keeps-shown_text _)
