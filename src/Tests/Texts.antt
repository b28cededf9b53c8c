-- ===== src/Tests/Texts.antt =====
-- frontend/text.ts at concrete texts.
use usebin.Base.{◌≡◌, ◌↔◌, refl, true, false, [], ◌∷◌, arith, Bytes, codes}
use usebin.Charset.{
  dos437_en, iso_88591, control_table, table_437, iso88591, iso_from, cp1252_table, character_set,
}
use usebin.Text.{
  text, unknown_code_page, entry, lookup_rows8_9, lookup_cp437, lookup_char_code, control,
  extended_char, from_char_code, decode_text,
}
use usebin.Text.Every.{latin1, shown, all_by, decode_text-all_by}
use usebin.Text.Pages.{has_high, decode_text-has_high}

abbrev some_bytes : Bytes
some_bytes = 0x48 ∷ 0x69 ∷ 13 ∷ 10 ∷ 0x7f ∷ 0x80 ∷ 0xff ∷ []

runs_437 : decode_text some_bytes dos437_en false ≡ text (codes "Hi\nÇ\u{a0}")
unfolding decode_text from_char_code control extended_char lookup_cp437 lookup_rows8_9 entry
    character_set table_437 control_table cp1252_table
runs_437 = refl

-- a line break of two characters is doubled under ISO 8859-1
runs_iso : decode_text (13 ∷ 10 ∷ 0xe9 ∷ []) iso_88591 false ≡ text (codes "\n\né")
unfolding decode_text from_char_code control extended_char lookup_char_code entry character_set
    iso88591 iso_from
runs_iso = refl

decode_text-has_high_example :
    (decode_text some_bytes [] false ≡ unknown_code_page []) ↔ (has_high some_bytes ≡ true)
decode_text-has_high_example =
    decode_text-has_high [] ((λ e. cc), (λ e. cc), λ e. cc) some_bytes (omega arith)

decode_text-all_by_example :
    decode_text some_bytes iso_88591 true ≡ text (all_by (shown latin1 true) some_bytes)
decode_text-all_by_example = decode_text-all_by latin1 true some_bytes (omega arith)
