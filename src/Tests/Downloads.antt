-- ===== src/Tests/Downloads.antt =====
-- Plain articles, and articles that are cut off, at concrete inputs.
use usebin.Base.{◌≡◌, refl, none, some, [], ◌∷◌, ◌++◌, arith, Bytes, codes}
use usebin.Text.Pages.{all_shown}
use usebin.Yenc.{ok, ybegin, byte_add}
use usebin.Yenc.Decode.{decode}
use usebin.Yenc.Encode.{encode}
use usebin.Yenc.RoundTrip.Body.{EndsPlain}
use usebin.Yenc.RoundTrip.Encodes.{whole_file, whole_range}
use usebin.Yenc.Libraries.{plain}
use usebin.Yenc.RoundTrip.Whole.{decode-encode_unsplit}
use usebin.Client.{at_origin}
use usebin.Client.Platform.{Platform}
use usebin.Client.Urls.{normalize_lines}
use usebin.Client.Location.{parse_file_url}
use usebin.Client.Download.{main}
use usebin.Client.Download.Plain.{main-encode, main-endless}
use usebin.Client.World.{World, returned, stuck}
use usebin.Tests.RoundTrips.{rar_name, rar_name-IsName}
use usebin.Tests.Toy.{toy, answer}

-- `Hi`, a line break, and a letter of code page 437
abbrev legacy : Bytes
legacy = 0x48 ∷ 0x69 ∷ 13 ∷ 10 ∷ 0x80 ∷ []

-- the page at `/ab`
abbrev at_message : World
at_message = record { page = at_origin (codes "/ab") []; draws = 0; keys = 0; requests = [] }

legacy-EndsPlain : EndsPlain legacy
unfolding byte_add
legacy-EndsPlain = refl

abbrev round_trip :
    (bytes : Bytes) × (encode plain (whole_file 128 5 rar_name legacy)
      ≡ ok (bytes, whole_range 128 5 rar_name legacy))
    × (decode plain none bytes ≡ ok (whole_file 128 5 rar_name legacy))
round_trip =
    decode-encode_unsplit plain 128 0x48 rar_name (0x69 ∷ 13 ∷ 10 ∷ 0x80 ∷ []) rar_name-IsName
      (omega arith) (omega arith) legacy-EndsPlain

-- what a file with this text is encoded to
abbrev article_of : Bytes
article_of = round_trip.0

abbrev archive : Platform
archive = toy 0 (omega arith) (λ before r. some (answer 200 article_of))

abbrev cut_off : Platform
cut_off = toy 0 (omega arith) (λ before r. some (answer 200 (ybegin ++ codes "line=12")))

main-encode_example :
    (v : World) × (main archive at_message ≡ returned tt v)
    × (v.page.text ≡ all_shown legacy)
    × (v.page.textbox ≡ normalize_lines (all_shown legacy))
main-encode_example =
    main-encode archive at_message b'a' (codes "b") (answer 200 article_of) 128 0x48 rar_name
      (0x69 ∷ 13 ∷ 10 ∷ 0x80 ∷ []) (omega arith) (omega arith) refl refl round_trip.1
      rar_name-IsName (omega arith) (omega arith) legacy-EndsPlain

main-endless_example : main cut_off at_message ≡ stuck
unfolding parse_file_url
main-endless_example =
    main-endless cut_off at_message
      (record { key = none; hash = none; message_id = some (codes "ab") })
      (answer 200 (ybegin ++ codes "line=12")) (codes "line=12") refl refl refl (ground arith)
