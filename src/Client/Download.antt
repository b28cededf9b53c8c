-- ===== src/Client/Download.antt =====
-- How frontend/usebin.ts shows the file that the location names: `main`, `fetchAndDisplayFile`,
-- `fetchAndDecryptFile` and `fetchFile`.
pub mod Ends
pub mod Kept
pub mod Shows
pub mod Plain
use usebin.Base.{Option, none, some, [], ◌∷◌, true, false, Bytes, Str, codes}
use usebin.Charset.{dos437_en}
use usebin.Text.{Shown, text, unknown_code_page, decode_text}
use usebin.Utf8
use usebin.Yenc.Decode.{decode}
use usebin.Client.{FileInfo, Page, Method, Request, Response, code_page_error, type_error}
use usebin.Client.Platform.{Platform}
use usebin.Client.Location.{push_state, parse_file_url}
use usebin.Client.Upload.{nonce}
use usebin.Client.Urls.{file_endpoint, encrypted_file_message_id, normalize_lines}
use usebin.Client.World.{
  World, C, Run, returned, threw, stuck, pure, raise, lift, or_raise, get_page, set_page, ◌>>=◌,
  ◌>>◌, fetch,
}

-- a string in a concatenation
abbrev pub spell : Option Str → Str
spell none = codes "undefined"
spell (some s) = s

-- a string that is set and not empty
abbrev pub non_empty : Option Str → Option Str
non_empty none = none
non_empty (some []) = none
non_empty (some (c ∷ s)) = some (c ∷ s)

abbrev pub shown_text : Shown → C Str
shown_text (text s) = pure s
shown_text (unknown_code_page page) = raise (code_page_error page)

module _ (p : Platform) where
  open p use {lib, origin, open_secret_box}

  -- `fetchFile`
  unfoldable pub fetch_file : Str → C Bytes
  fetch_file message_id = do
    resp ← fetch p record { method = Method.get; url = file_endpoint origin message_id; body = [] }
    file ← lift (decode lib none resp.body)
    or_raise type_error file.content

  -- `fetchAndDecryptFile`
  unfoldable pub fetch_and_decrypt_file : FileInfo → C Str
  fetch_and_decrypt_file file = do
    encrypted ← fetch_file (encrypted_file_message_id (spell file.hash))
    key ← or_raise type_error file.key
    opened ← or_raise type_error (open_secret_box key nonce encrypted)
    decrypted ← or_raise type_error opened
    pure (Utf8.decode decrypted)

  -- what `fetchAndDisplayFile` shows
  unfoldable pub fetch_text : FileInfo → C Str
  fetch_text file = elim (non_empty file.message_id) [
    | none ↦ fetch_and_decrypt_file file
    | some message_id ↦ do
      bytes ← fetch_file message_id
      shown_text (decode_text bytes dos437_en false)
  ]

  -- `fetchAndDisplayFile`
  unfoldable pub fetch_and_display_file : FileInfo → C (Unit {0})
  fetch_and_display_file file = do
    s ← fetch_text file
    page ← get_page
    set_page (record page { text = s; textbox = normalize_lines s })

  -- the `try` block of `main`
  unfoldable pub load : C (Unit {0})
  load = do
    found ← parse_file_url p
    elim found [ none ↦ pure tt | some file ↦ fetch_and_display_file file ]

  -- `main`: a file that cannot be shown leaves the page at its origin
  unfoldable pub main : C (Unit {0})
  main w = elim (load w) [
    | returned _ w' ↦ returned tt w'
    | threw _ w' ↦ push_state [] w'
    | stuck ↦ stuck
  ]
