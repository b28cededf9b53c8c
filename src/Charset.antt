-- ===== src/Charset.antt =====
-- frontend/charset.ts: the code pages and their tables. An entry of a table is a string, of one
-- character or none.
use usebin.Base.{
  ℕ, zero, suc, ◌≡◌, refl, Bool, true, false, ◌&&◌, ◌||◌, Option, none, some, List, [], ◌∷◌, ◌++◌,
  map, ltb, ◌==◌, if◌then◌else◌, Str, codes, length, str_eq,
}

-- `CodePage`
abbrev pub dos437_ctrls : Str
dos437_ctrls = codes "cp437_C0"

abbrev pub dos437_en : Str
dos437_en = codes "cp_437"

abbrev pub iso_88591 : Str
iso_88591 = codes "iso_8859_1"

abbrev pub win1252_en : Str
win1252_en = codes "cp_1252"

abbrev pub win1252_r8_r9 : Str
win1252_r8_r9 = codes "cp_1252_r8_r9"

-- a string of one code unit, `String.fromCharCode`
abbrev pub char : ℕ → Str
char c = c ∷ []

-- `Array.from`
abbrev pub chars : Str → List Str
chars = map char

-- rows 0 and 1
unfoldable pub control_table : List Str
control_table = chars (codes "␀☺☻♥♦♣♠•◘○◙♂♀♪♫☼" ++ codes "►◄↕‼¶§▬↨↑↓→←∟↔▲▼")

-- rows 8 to F
unfoldable pub table_437 : List Str
table_437 = chars (
    codes "ÇüéâäàåçêëèïîìÄÅ"
    ++ codes "ÉæÆôöòûùÿÖÜ¢£¥₧ƒ"
    ++ codes "áíóúñÑªº¿⌐¬½¼¡«»"
    ++ codes "░▒▓│┤╡╢╖╕╣║╗╝╜╛┐"
    ++ codes "└┴┬├─┼╞╟╚╔╩╦╠═╬╧"
    ++ codes "╨╤╥╙╘╒╓╫╪┘┌█▄▌▐▀"
    ++ codes "αßΓπΣσµτΦΘΩδ∞φε∩"
    ++ codes "≡±≥≤⌠⌡÷≈°∙·√ⁿ²■"
    ++ 0xa0 ∷ [])

-- `undefinePoint`
abbrev pub undefine_point : ℕ → Bool
undefine_point i = ltb i 32 || (ltb 126 i && ltb i 160) || ltb 255 i

-- the loop of `iso88591`, with the rounds left
unfoldable pub iso_from : ℕ → ℕ → List Str
iso_from zero i = []
iso_from (suc n) i = (if undefine_point i then codes " " else char i) ∷ iso_from n (suc i)

unfoldable pub iso88591 : List Str
iso88591 = iso_from 256 0

-- rows 8 and 9 of Windows-1252, with empty strings where it has no character
unfoldable pub cp1252_table : List Str
cp1252_table =
    codes "€" ∷ [] ∷ chars (codes "‚ƒ„…†‡ˆ‰Š‹Œ")
    ++ [] ∷ codes "Ž" ∷ [] ∷ [] ∷ chars (codes "‘’“”•–—˜™š›œ")
    ++ [] ∷ codes "ž" ∷ codes "Ÿ" ∷ []

-- The loop of `cp1252`, with the rounds left: at 128 the two rows are put in, and `i` jumps to 160.
unfoldable pub cp1252_from : ℕ → ℕ → List Str
cp1252_from zero i = []
cp1252_from (suc n) i = elim (i == 128) [
  | true ↦ cp1252_table ++ cp1252_from n 160
  | false ↦ char i ∷ cp1252_from n (suc i)
]

-- 225 rounds are the 128 before the rows, the one that puts them in, and the 96 behind them.
unfoldable pub cp1252 : List Str
cp1252 = cp1252_from 225 0

-- `CharacterSet[codepage]`
unfoldable pub character_set : Str → Option (List Str)
character_set codepage =
    if str_eq codepage dos437_en
    then some table_437
    else if str_eq codepage dos437_ctrls
    then some control_table
    else if str_eq codepage iso_88591
    then some iso88591
    else if str_eq codepage win1252_en
    then some cp1252
    else if str_eq codepage win1252_r8_r9
    then some cp1252_table
    else none

lengths :
    (length control_table ≡ 32)
    × (length table_437 ≡ 128)
    × (length iso88591 ≡ 256)
    × (length cp1252 ≡ 256)
    × (length cp1252_table ≡ 32)
unfolding control_table table_437 iso88591 iso_from cp1252 cp1252_from cp1252_table
lengths = (refl, refl, refl, refl, refl)
