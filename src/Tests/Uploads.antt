-- ===== src/Tests/Uploads.antt =====
-- The client's uploads and downloads at concrete inputs.
use usebin.Base.{ℕ, ◌<◌, ◌≤◌, ◌≡◌, refl, none, some, [], ◌∷◌, arith, Bytes, codes}
use usebin.Bytes.{from_string}
use usebin.Utf8.{scalars, all_units, encode, encode_scalars, encode_scalar}
use usebin.Yenc.{byte_add, YFile, YencError, ok, throw}
use usebin.Yenc.Decode.{decode}
use usebin.Client.{Response, at_origin}
use usebin.Client.Platform.{Platform}
use usebin.Client.Urls.{normalize_lines, file_endpoint, encrypted_file_message_id, to_lower_case}
use usebin.Client.Upload.{hash_of, y_enc_file_encode, post_file}
use usebin.Client.Upload.Articles.{decode-y_enc_file_encode, decode-y_enc_file_encode_lost}
use usebin.Client.Upload.Rounds.{request_at, after_post, IsPosted, post_file-IsPosted}
use usebin.Client.Upload.Counts.{Used, post_file-Used}
use usebin.Client.Download.{main}
use usebin.Client.Saving.{handle_try_save}
use usebin.Client.Saving.Visits.{started, visit}
use usebin.Client.Saving.Whole.{main-handle_try_save, main-handle_try_save_lost}
use usebin.Client.World.{World, returned}
use usebin.Client.World.Keeps.{Ends}
use usebin.Tests.Toy.{toy, busy_server, answer}

-- the tag 0 is not escaped, the tag 214 is
abbrev plain_toy : Platform
plain_toy = toy 0 (omega arith) busy_server

abbrev escaped_toy : Platform
escaped_toy = toy 214 (omega arith) busy_server

-- a page in which `hé` has been typed
abbrev typed : World
typed = record {
  page = record (at_origin (codes "/") []) { textbox = codes "hé" };
  draws = 0;
  keys = 0;
  requests = [];
}

abbrev few : Bytes
few = 1 ∷ 214 ∷ 2 ∷ []

decode-y_enc_file_encode_example :
    (encoded : Bytes) × (w' : World) × (file : YFile) × (y_enc_file_encode plain_toy few typed
      ≡ returned encoded w')
    × (decode plain_toy.lib none encoded ≡ ok file)
    × (file.content ≡ some few)
unfolding byte_add
decode-y_enc_file_encode_example =
    decode-y_enc_file_encode plain_toy few typed (omega arith) (ground arith) refl

decode-y_enc_file_encode_lost_example :
    (encoded : Bytes) × (w' : World) × (e : YencError) × (y_enc_file_encode plain_toy
        (1 ∷ 214 ∷ [])
        typed
      ≡ returned encoded w')
    × (decode plain_toy.lib none encoded ≡ throw e)
unfolding byte_add
decode-y_enc_file_encode_lost_example =
    decode-y_enc_file_encode_lost plain_toy (1 ∷ 214 ∷ []) typed (omega arith) (ground arith) refl

post_file-IsPosted_example : IsPosted plain_toy few 3 typed (post_file plain_toy few typed)
post_file-IsPosted_example = post_file-IsPosted plain_toy few typed

post_file-Used_example :
    Ends (λ v. (n : ℕ) × (0 < n) × (n ≤ 4) × Used n typed v) (post_file plain_toy few typed)
post_file-Used_example = post_file-Used plain_toy few typed

-- the world behind the first try, which the server refuses
abbrev refused : Platform → World
refused p = after_post p (from_string (codes "hé")) (started (codes "hé") typed)

abbrev handed_out : Platform → Response
handed_out p = answer 200 (request_at p (from_string (codes "hé")) (refused p)).body

main-handle_try_save_example :
    (w' : World) × (v : World) × (handle_try_save plain_toy typed ≡ returned tt w')
    × (main plain_toy
          (visit (after_post plain_toy (from_string (codes "hé")) (refused plain_toy)).requests w')
        ≡ returned tt v)
    × (v.page.text ≡ all_units (scalars (codes "hé")))
    × (v.page.textbox ≡ normalize_lines (all_units (scalars (codes "hé"))))
unfolding byte_add scalars encode encode_scalars encode_scalar from_string file_endpoint
    encrypted_file_message_id hash_of to_lower_case
main-handle_try_save_example =
    main-handle_try_save plain_toy (codes "hé") typed (refused plain_toy) 1 (answer 200 [])
      (handed_out plain_toy)
      (after_post plain_toy (from_string (codes "hé")) (refused plain_toy)).requests refl (λ e. cc)
      (λ e. cc) (ground arith) (λ e. omega arith) (omega arith)
      (answer 503 [], refl, (λ e. omega arith), refl) refl refl refl refl refl

main-handle_try_save_lost_example :
    (w' : World) × (v : World) × (handle_try_save escaped_toy typed ≡ returned tt w')
    × (main escaped_toy (
          visit
            (after_post escaped_toy (from_string (codes "hé")) (refused escaped_toy)).requests
            w')
        ≡ returned tt v)
    × (v.page ≡ at_origin (codes "/") [])
unfolding byte_add scalars encode encode_scalars encode_scalar from_string file_endpoint
    encrypted_file_message_id hash_of to_lower_case
main-handle_try_save_lost_example =
    main-handle_try_save_lost escaped_toy (codes "hé") typed (refused escaped_toy) 1 (answer 200 [])
      (handed_out escaped_toy)
      (after_post escaped_toy (from_string (codes "hé")) (refused escaped_toy)).requests refl
      (λ e. cc) (λ e. cc) (ground arith) (omega arith)
      (answer 503 [], refl, (λ e. omega arith), refl) refl refl refl refl refl
