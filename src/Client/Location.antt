-- ===== src/Client/Location.antt =====
-- The location of the page in frontend/usebin.ts: `parseFileURL`, which reads it, and the URL that
-- `handleTrySave` pushes. A pushed URL is given by what stands behind the origin.
pub mod RoundTrip
use usebin.Base.{
  Option, none, some, [], ◌∷◌, ◌++◌, true, false, ltb, Bytes, Str, codes, length, drop,
}
use usebin.Client.{FileInfo, Page, not_base64, not_hex, not_a_uri, type_error}
use usebin.Client.Platform.{Platform}
use usebin.Client.Urls.{strip_padding, to_lower_case, path_of, fragment_of}
use usebin.Client.World.{C, Run, pure, or_raise, get_page, set_page, ◌>>=◌, ◌>>◌}

-- `window.history.pushState({}, '', ...)`
unfoldable pub push_state : Str → C (Unit {0})
push_state url = do
  page ← get_page
  set_page (record page { pathname = path_of url; fragment = fragment_of url })

module _ (p : Platform) where
  open p use {hex_encode, hex_decode, encode_url_safe, decode_url_safe, decode_uri_component}

  -- `parseFileURL`
  unfoldable pub parse_file_url : C (Option FileInfo)
  parse_file_url = do
    page ← get_page
    elim (ltb (length page.pathname) 2) [
      | true ↦ pure none
      | false ↦ elim (ltb 1 (length page.fragment)) [
        | true ↦ do
          sum ← or_raise not_base64 (decode_url_safe (drop 1 page.pathname))
          key ← or_raise not_base64 (decode_url_safe (drop 1 page.fragment))
          pure (
              some (record {
                key = some key;
                hash = some (to_lower_case (hex_encode sum));
                message_id = none;
              }))
        | false ↦ do
          message_id ← or_raise not_a_uri (decode_uri_component (drop 1 page.pathname))
          pure (some (record { key = none; hash = none; message_id = some message_id }))
      ]
    ]

  -- the end of `handleTrySave`, with the file that was posted
  unfoldable pub show_url : FileInfo → C (Unit {0})
  show_url file = do
    hash ← or_raise type_error file.hash
    sum ← or_raise not_hex (hex_decode hash)
    key ← or_raise type_error file.key
    push_state (
        codes "/"
        ++ (strip_padding (encode_url_safe sum)
            ++ (codes "#" ++ strip_padding (encode_url_safe key))))
