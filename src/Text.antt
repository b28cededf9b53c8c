-- ===== src/Text.antt =====
-- frontend/text.ts: `decodeText`, which shows bytes of a legacy code page as Unicode text.
pub mod Pages
pub mod Every
use usebin.Base.{
  ℕ, ◌-◌, ◌≡◌, refl, Bool, true, false, not, ◌&&◌, ◌||◌, Option, none, some, List, [], ◌∷◌, ◌++◌,
  ltb, leb, ◌==◌, if◌then◌else◌, Bytes, Str, codes, get_elem?, find_index, str_eq,
}
use usebin.Charset.{
  dos437_en, iso_88591, win1252_en, char, control_table, cp1252_table, character_set, table_437,
  iso88591, iso_from, cp1252, cp1252_from,
}

-- text, or the error thrown for a code page that is not known
pub data Shown : Type 0 where
  text : Str → Shown
  unknown_code_page : Str → Shown

-- an entry of a table in a template or a concatenation
abbrev pub spell : Option Str → Str
spell none = codes "undefined"
spell (some s) = s

-- `table[number - offset]`; below the offset there is no entry
unfoldable pub entry : Option (List Str) → ℕ → ℕ → Str
entry none number offset = codes "undefined"
entry (some table) number offset =
    if ltb number offset then codes "undefined" else spell (get_elem? table (number - offset))

-- `lookupRows8_9`
unfoldable pub lookup_rows8_9 : Option (List Str) → ℕ → Str
lookup_rows8_9 extended number = elim (find_index (str_eq (char number)) cp1252_table) [
  | none ↦ entry extended number 128
  | some i ↦ entry extended i 0
]

-- `lookupCp437`
unfoldable pub lookup_cp437 : Option (List Str) → ℕ → Str
lookup_cp437 extended number =
    if leb 0xa0 number && leb number 0xff
    then entry extended number 128
    else let win1252 = lookup_rows8_9 extended number in
      if str_eq win1252 [] || str_eq win1252 (codes "undefined") then [] else win1252

-- `lookupCharCode`
unfoldable pub lookup_char_code : Option (List Str) → ℕ → Str
lookup_char_code extended number =
    if leb 0x80 number && leb number 0xff then entry extended number 0 else []

-- a control where the symbol is not asked for: tab, line feed and carriage return
abbrev pub plain_control : ℕ → Str
plain_control number =
    if number == 9
    then codes "\t"
    else if number == 10 || number == 13
    then codes "\n"
    else codes " "

-- the characters 1 to 31
unfoldable pub control : Str → Bool → ℕ → Str
control codepage display_controls number =
    if number == 27
    then entry (some control_table) number 0
    else if display_controls
    then (if number == 9 || number == 10 || number == 13
        then plain_control number
        else if str_eq codepage dos437_en
        then entry (some control_table) number 0
        else codes " ")
    else if str_eq codepage dos437_en
    then char number
    else plain_control number

-- the characters from 128 on, and 127 where controls are not shown
unfoldable pub extended_char : Str → ℕ → Shown
extended_char codepage number =
    if str_eq codepage dos437_en
    then text (lookup_cp437 (character_set codepage) number)
    else if str_eq codepage iso_88591 || str_eq codepage win1252_en
    then text (lookup_char_code (character_set codepage) number)
    else unknown_code_page codepage

-- `fromCharCode`
unfoldable pub from_char_code : Str → Bool → ℕ → Shown
from_char_code codepage display_controls number =
    if number == 0 || number == 65533
    then text (codes " ")
    else if leb number 31
    then text (control codepage display_controls number)
    else if leb 32 number && leb number 126
    then text (char number)
    else if number == 127 && display_controls
    then text (codes "⌂")
    else extended_char codepage number

-- `if (c !== '\r') normalized += c`
abbrev pub add_char : Str → Shown → Shown
add_char c (text rest) = text (if str_eq c (codes "\r") then rest else c ++ rest)
add_char c (unknown_code_page p) = unknown_code_page p

abbrev pub then_rest : Shown → Shown → Shown
then_rest (text c) rest = add_char c rest
then_rest (unknown_code_page p) rest = unknown_code_page p

-- `decodeText`
unfoldable pub decode_text : Bytes → Str → Bool → Shown
decode_text [] codepage display_controls = text []
decode_text (b ∷ bytes) codepage display_controls =
    then_rest (from_char_code codepage display_controls b)
      (decode_text bytes codepage display_controls)
