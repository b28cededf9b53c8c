-- ===== src/Yenc/Decode.antt =====
-- `decode`. Every loop takes at least one byte off the input in each round, or finds none left, so
-- the length of the input plus two bounds the rounds of a loop that ends.
use usebin.Base.{ℕ, ◌+◌, Option, Bytes, length}
use usebin.Js.Number.{Number}
use usebin.Yenc.{YFile, Outcome, ok, throw, spin}
use usebin.Yenc.Libraries.{Libraries}
use usebin.Yenc.Reader.{Decoder, ◌>>◌, get_file, reading}
use usebin.Yenc.Header.{read_header}
use usebin.Yenc.Data.{decode_data}

abbrev pub file_of : Outcome (YFile × Decoder) → Outcome YFile
file_of o = elim o [ ok (file, d) ↦ ok file | throw e ↦ throw e | spin ↦ spin ]

module _ (lib : Libraries) (crc32seed : Option Number) where
  -- `decode` with a bound on the rounds of each loop
  unfoldable pub decode_within : ℕ → Bytes → Outcome (YFile × Decoder)
  decode_within fuel encoded =
      (do read_header lib crc32seed fuel; decode_data lib crc32seed fuel; get_file)
        (reading encoded)

  unfoldable pub decode : Bytes → Outcome YFile
  decode encoded = file_of (decode_within (length encoded + 2) encoded)
