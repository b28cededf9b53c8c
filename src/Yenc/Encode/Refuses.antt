-- ===== src/Yenc/Encode/Refuses.antt =====
-- Which records `encode` refuses.
use usebin.Base.{
  ◌≡◌, ◌≢◌, ◌⊎◌, ap, if◌then◌else◌, Bool, false, Option, none, some, [], arith, Bytes,
}
use usebin.Js.Number.{to_number}
use usebin.Yenc.{YFile, ok, throw, invalid_encode_parameters}
use usebin.Yenc.Libraries.{Libraries}
use usebin.Yenc.Trailer.{content_of}
use usebin.Yenc.Encode.{is_invalid, with_defaults, write_header, write_body, write_trailer, encode}

-- a field has a value
abbrev pub IsGiven : {A : Type 0} → Option A → Type 0
IsGiven o = o ≢ none

-- all the fields that a file needs: a name that is not empty, a size and data; and of the fields of a
-- part either all or none
abbrev pub IsComplete : YFile → Type 0
IsComplete file =
    IsGiven file.name
    × (file.name ≢ some [])
    × IsGiven file.size
    × IsGiven file.content
    × ((IsGiven file.total × IsGiven file.part × IsGiven file.begin × IsGiven file.end)
        ⊎ ((file.total ≡ none) × (file.part ≡ none) × (file.begin ≡ none) × (file.end ≡ none)))

pub complete-valid : (file : YFile) → IsComplete file → is_invalid file ≡ false
unfolding is_invalid
complete-valid file h = ground arith

module _ (lib : Libraries) (file : YFile) where
  -- what `encode` returns where it does not refuse the record
  abbrev pub returned : Bytes × YFile
  returned =
      let full = with_defaults file in
      (
        lib.finish (
            write_trailer lib full (
              write_body lib (to_number full.line) (content_of full) 0
                (write_header lib full lib.new_writer))),
        full,
      )

  pub encode-is_invalid :
      (b : Bool)
      → is_invalid file ≡ b
      → encode lib file ≡ (if b then throw invalid_encode_parameters else ok returned)
  unfolding encode
  encode-is_invalid b e = ap (λ b. if b then throw invalid_encode_parameters else ok returned) e
