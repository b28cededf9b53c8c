-- ===== src/Yenc/Sound/Files.antt =====
-- A file that `decode` returns is consistent.
use usebin.Base.{◌<◌, ◌≡◌, All, true, false, some, length}
use usebin.Js.Number.{Number, less, to_number, nat}
use usebin.Yenc.{YFile, Outcome, ok, throw, spin}
use usebin.Yenc.Libraries.{Libraries}
use usebin.Yenc.Trailer.{is_set, content_of, size_from_header}

-- What a returned file satisfies. `size_from_header` is the length of the part, `end - begin`, where
-- there is a part number, and else the size.
pub record IsConsistent (file : YFile) : Type 0 where
  pub line_set : is_set file.line ≡ true
  pub size_set : is_set file.size ≡ true
  pub part_set : is_set file.total ≡ true → is_set file.part ≡ true
  pub octets : All (λ b. b < 256) (content_of file)
  pub content_set : file.content ≡ some (content_of file)
  pub length_fits : size_from_header file ≡ some (nat (length (content_of file)))
  pub in_order : is_set file.end ≡ true → less (to_number file.end) (to_number file.begin) ≡ false
  pub in_file : is_set file.end ≡ true → less (to_number file.size) (to_number file.end) ≡ false

-- the file of an outcome is consistent
abbrev ConsistentResult : Outcome YFile → Type 0
ConsistentResult o = elim o [ ok f ↦ IsConsistent f | throw e ↦ Unit {0} | spin ↦ Unit {0} ]
