-- ===== src/Text/Every.antt =====
-- `decodeText` for each of the three code pages it knows, with and without controls shown.
use usebin.Base.{
  ℕ, ◌-◌, ◌<◌, ◌≡◌, refl, ap, ◌∙◌, Bool, true, false, ◌||◌, [], ◌∷◌, ◌++◌, ltb, ◌==◌, if◌then◌else◌,
  Bytes, Str, codes, get_elem?, All,
}
use usebin.Charset.{
  dos437_en, iso_88591, win1252_en, char, control_table, cp1252_table, character_set, table_437,
  iso88591, iso_from, cp1252, cp1252_from,
}
use usebin.Text.{
  text, spell, entry, lookup_rows8_9, lookup_cp437, lookup_char_code, control, extended_char,
  from_char_code, then_rest, decode_text,
}
use usebin.Text.Pages.{is_text, then_rest-is_text, all_below, all_below-true}

pub data LegacyPage : Type 0 where
  dos latin1 windows : LegacyPage

abbrev pub page_name : LegacyPage → Str
page_name dos = dos437_en
page_name latin1 = iso_88591
page_name windows = win1252_en

-- the characters 1 to 31 but escape: with controls shown, the DOS page has symbols for all but tab and the
-- line ends; without, it has the controls themselves, and drops the carriage return; the others
-- have a line feed for both line ends, and blanks
abbrev pub low_char : LegacyPage → Bool → ℕ → Str
low_char dos true b =
    if b == 9
    then codes "\t"
    else if b == 10 || b == 13
    then codes "\n"
    else spell (get_elem? control_table b)
low_char dos false b = if b == 13 then [] else char b
low_char _ controls b =
    if b == 9 then codes "\t" else if b == 10 || b == 13 then codes "\n" else codes " "

-- the characters from 128 on: of ISO 8859-1 the first 32 are blank, of Windows-1252 they are those of
-- its two rows
abbrev pub high_char : LegacyPage → ℕ → Str
high_char dos b = spell (get_elem? table_437 (b - 128))
high_char latin1 b = if ltb b 160 then codes " " else char b
high_char windows b = if ltb b 160 then spell (get_elem? cp1252_table (b - 128)) else char b

-- what a byte stands for
abbrev pub shown : LegacyPage → Bool → ℕ → Str
shown page controls b =
    if b == 0
    then codes " "
    else if b == 27
    then codes "←"
    else if ltb b 32
    then low_char page controls b
    else if ltb b 127
    then char b
    else if b == 127
    then (if controls then codes "⌂" else [])
    else high_char page b

abbrev pub all_by : (ℕ → Str) → Bytes → Str
all_by f [] = []
all_by f (b ∷ bytes) = f b ++ all_by f bytes

abbrev fits : LegacyPage → Bool → ℕ → Bool
fits page controls b = is_text (shown page controls b) (from_char_code (page_name page) controls b)

every_fits : (page : LegacyPage) (controls : Bool) → all_below (fits page controls) 256 ≡ true
unfolding from_char_code control extended_char lookup_cp437 lookup_rows8_9 lookup_char_code entry
    character_set table_437 control_table cp1252_table iso88591 iso_from cp1252 cp1252_from
every_fits dos true = refl
every_fits dos false = refl
every_fits latin1 true = refl
every_fits latin1 false = refl
every_fits windows true = refl
every_fits windows false = refl

-- For each of the code pages 437, ISO 8859-1 and Windows-1252, with controls shown or not: `decodeText`
-- returns what the bytes stand for, one after the other.
pub decode_text-all_by :
    (page : LegacyPage) (controls : Bool) (bytes : Bytes)
    → All (λ b. b < 256) bytes
    → decode_text bytes (page_name page) controls ≡ text (all_by (shown page controls) bytes)
unfolding decode_text
decode_text-all_by page controls [] h = refl
decode_text-all_by page controls (b ∷ bytes) (l, h) =
    ap (then_rest (from_char_code (page_name page) controls b))
      (decode_text-all_by page controls bytes h)
    ∙ then_rest-is_text (shown page controls b) (all_by (shown page controls) bytes)
        (from_char_code (page_name page) controls b)
        (all_below-true (fits page controls) 256 b (every_fits page controls) l)
