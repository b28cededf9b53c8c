-- ===== src/Text/Pages.antt =====
-- `decodeText` by code page.
use usebin.Base.{
  ℕ, zero, suc, ◌-◌, ◌<◌, ◌≤◌, ◌≡◌, refl, ap, ◌∙◌, Bool, true, false, ◌||◌, [], ◌∷◌, ◌++◌, ltb, leb,
  ◌==◌, if◌then◌else◌, arith, Bytes, Str, codes, get_elem?, str_eq, str_eq_iff, All, Bool-cases,
  inl, inr, ==_iff, ◌≢◌, ◌↔◌, ltb→lt, ltb→le,
}
use usebin.Charset.{
  dos437_en, iso_88591, win1252_en, char, control_table, cp1252_table, character_set, table_437,
}
use usebin.Text.{
  Shown, text, unknown_code_page, spell, entry, lookup_rows8_9, lookup_cp437, control,
  extended_char, from_char_code, then_rest, decode_text,
}

-- What a byte stands for in code page 437, where controls are not shown: a blank for NUL, the arrow of
-- the table for escape, nothing for a carriage return and for delete, the other characters up to 126
-- as they are, and the table from 128 on.
abbrev pub shown_437 : ℕ → Str
shown_437 b =
    if b == 0
    then codes " "
    else if b == 27
    then codes "←"
    else if b == 13 || b == 127
    then []
    else if ltb b 127
    then char b
    else spell (get_elem? table_437 (b - 128))

abbrev pub all_shown : Bytes → Str
all_shown [] = []
all_shown (b ∷ bytes) = shown_437 b ++ all_shown bytes

-- what `decodeText` adds for a byte
abbrev pub is_text : Str → Shown → Bool
is_text s (text c) = str_eq (if str_eq c (codes "\r") then [] else c) s
is_text s (unknown_code_page p) = false

abbrev fits_437 : ℕ → Bool
fits_437 b = is_text (shown_437 b) (from_char_code dos437_en false b)

abbrev pub all_below : (ℕ → Bool) → ℕ → Bool
all_below p zero = true
all_below p (suc n) = elim (p n) [ true ↦ all_below p n | false ↦ false ]

pub all_below-true : (p : ℕ → Bool) (n b : ℕ) → all_below p n ≡ true → b < n → p b ≡ true
all_below-true p zero b h l = ground arith
all_below-true p (suc n) b h l = elim (Bool-cases (p n)) [
  | inl e ↦ elim (Bool-cases (b == n)) [
    | inl q ↦ ap p ((==_iff b n).0 q) ∙ e
    | inr q ↦ all_below-true p n b (ground arith) (ground arith)
  ]
  | inr e ↦ ground arith
]

fits : all_below fits_437 256 ≡ true
unfolding from_char_code control extended_char lookup_cp437 lookup_rows8_9 entry character_set
    table_437 control_table cp1252_table
fits = refl

dropped_or_added :
    (s rest c : Str) (b : Bool)
    → str_eq (if b then [] else c) s ≡ true
    → text (if b then rest else c ++ rest) ≡ text (s ++ rest)
dropped_or_added s rest c true h = ap (λ t. text (t ++ rest)) ((str_eq_iff [] s).0 h)
dropped_or_added s rest c false h = ap (λ t. text (t ++ rest)) ((str_eq_iff c s).0 h)

pub then_rest-is_text :
    (s rest : Str) (x : Shown) → is_text s x ≡ true → then_rest x (text rest) ≡ text (s ++ rest)
then_rest-is_text s rest (unknown_code_page p) h = cc
then_rest-is_text s rest (text c) h = dropped_or_added s rest c (str_eq c (codes "\r")) h

pub decode_text-all_shown :
    (bytes : Bytes)
    → All (λ b. b < 256) bytes
    → decode_text bytes dos437_en false ≡ text (all_shown bytes)
unfolding decode_text
decode_text-all_shown [] h = refl
decode_text-all_shown (b ∷ bytes) (l, h) =
    ap (then_rest (from_char_code dos437_en false b)) (decode_text-all_shown bytes h)
    ∙ then_rest-is_text (shown_437 b) (all_shown bytes) (from_char_code dos437_en false b)
        (all_below-true fits_437 256 b fits l)

abbrev pub has_high : Bytes → Bool
has_high [] = false
has_high (b ∷ bytes) = ltb 126 b || has_high bytes

str_eq-ne : (a b : Str) → a ≢ b → str_eq a b ≡ false
str_eq-ne a b n = elim (Bool-cases (str_eq a b)) [
  | inl e ↦ absurd (n ((str_eq_iff a b).0 e))
  | inr e ↦ e
]

-- The text of a byte up to 126.
abbrev low_text : Str → ℕ → Str
low_text page b = if b == 0 then codes " " else if leb b 31 then control page false b else char b

low_char : (page : Str) (b : ℕ) → b ≤ 126 → from_char_code page false b ≡ text (low_text page b)
unfolding from_char_code
low_char page b l = ground arith

-- a code page that `decodeText` has no table for
abbrev pub IsUnknown : Str → Type 0
IsUnknown page = (page ≢ dos437_en) × (page ≢ iso_88591) × (page ≢ win1252_en)

module _ (page : Str) (n : IsUnknown page) where
  extended_char_unknown : (b : ℕ) → extended_char page b ≡ unknown_code_page page
  unfolding extended_char
  extended_char_unknown b =
      rw (str_eq-ne page dos437_en n.0, str_eq-ne page iso_88591 n.1, str_eq-ne page win1252_en n.2)
        refl

  high_char : (b : ℕ) → 126 < b → b < 256 → from_char_code page false b ≡ unknown_code_page page
  unfolding from_char_code
  high_char b l h = ground (arith, extended_char_unknown b)

  decode_text_high :
      (bytes : Bytes)
      → All (λ b. b < 256) bytes
      → has_high bytes ≡ true
      → decode_text bytes page false ≡ unknown_code_page page
  unfolding decode_text
  decode_text_high [] h e = cc
  decode_text_high (b ∷ bytes) (l, h) e = elim (Bool-cases (ltb 126 b)) [
    | inl q ↦ ap (λ x. then_rest x (decode_text bytes page false)) (high_char b (ltb→lt 126 b q) l)
    | inr q ↦
        ap (λ x. then_rest x (decode_text bytes page false)) (low_char page b (ltb→le 126 b q))
        ∙ ap (then_rest (text (low_text page b))) (decode_text_high bytes h (ground arith))
  ]

  decode_text_low :
      (bytes : Bytes) → has_high bytes ≡ false → (s : Str) × (decode_text bytes page false ≡ text s)
  unfolding decode_text
  decode_text_low [] e = ([], refl)
  decode_text_low (b ∷ bytes) e =
      let (s, q) = decode_text_low bytes (ground arith) in
      (
        _,
        ap (λ x. then_rest x (decode_text bytes page false)) (low_char page b (ground arith))
            ∙ ap (then_rest (text (low_text page b))) q,
      )

  -- For a code page that is none of the three known ones, with controls not shown, `decodeText` throws
  -- exactly where a byte is above 126.
  pub decode_text-has_high :
      (bytes : Bytes)
      → All (λ b. b < 256) bytes
      → (decode_text bytes page false ≡ unknown_code_page page) ↔ (has_high bytes ≡ true)
  decode_text-has_high bytes h = (
    λ e. elim (Bool-cases (has_high bytes)) [
      | inl q ↦ q
      | inr q ↦ let (s, t) = decode_text_low bytes q in cc
    ],
    decode_text_high bytes h,
  )
