-- ===== src/Client/Location/RoundTrip.antt =====
-- `parseFileURL` reads the file of the URL that `handleTrySave` pushes.
use usebin.Base.{
  ℕ, ◌<◌, ◌≡◌, refl, ap, sym, ◌∙◌, true, false, ◌||◌, none, some, [], ◌∷◌, ◌++◌, arith, Bytes, Str,
  codes, length, All, ◌==◌, if◌then◌else◌,
}
use usebin.Client.{FileInfo, not_hex}
use usebin.Client.Platform.{Platform, AreBytes, is_url_safe}
use usebin.Client.Location.{push_state, parse_file_url, show_url}
use usebin.Client.Urls.{strip_padding, to_lower_case, path_of, fragment_of}
use usebin.Client.World.{World, returned}
use usebin.Client.World.Keeps.{bind-or_raise}
use usebin.Yenc.Reader.Cuts.{until, from}

abbrev IsUrlSafe : Str → Type 0
IsUrlSafe = All (λ c. is_url_safe c ≡ true)

strip_padding-IsUrlSafe : (s : Str) → IsUrlSafe s → IsUrlSafe (strip_padding s)
unfolding strip_padding
strip_padding-IsUrlSafe [] h = tt
strip_padding-IsUrlSafe (c ∷ s) h = by_rest (strip_padding s) (strip_padding-IsUrlSafe s h.1)
  where
    by_rest :
        (rest : Str)
        → IsUrlSafe rest
        → IsUrlSafe (elim rest [ [] ↦ if c == b'=' then [] else c ∷ [] | d ∷ t ↦ c ∷ d ∷ t ])
    by_rest [] r = ground arith
    by_rest (d ∷ t) r = (h.0, r)

-- neither `?` nor `#` is a character of the alphabet
plain_path : (c : ℕ) → is_url_safe c ≡ true → c == b'?' || c == b'#' ≡ false
plain_path c h = ground arith

no_fragment : (c : ℕ) → is_url_safe c ≡ true → c == b'#' ≡ false
no_fragment c h = ground arith

path_of-fragment :
    (a b : Str) → IsUrlSafe a → path_of (codes "/" ++ (a ++ (codes "#" ++ b))) ≡ codes "/" ++ a
unfolding path_of
path_of-fragment a b h = ap (b'/' ∷◌) (cut a h)
  where
    cut : (a : Str) → IsUrlSafe a → until (λ d. d == b'?' || d == b'#') (a ++ (codes "#" ++ b)) ≡ a
    cut [] h = refl
    cut (c ∷ a) h = rw (plain_path c h.0, until) (ap (c ∷◌) (cut a h.1))

fragment_of-fragment :
    (a b : Str)
    → IsUrlSafe a
    → 0 < length b
    → fragment_of (codes "/" ++ (a ++ (codes "#" ++ b))) ≡ codes "#" ++ b
unfolding fragment_of
fragment_of-fragment a b h n = rw (cut a h) (ground arith)
  where
    cut : (a : Str) → IsUrlSafe a → from (λ d. d == b'#') (a ++ (codes "#" ++ b)) ≡ codes "#" ++ b
    cut [] h = refl
    cut (c ∷ a) h = rw (no_fragment c h.0, from) (cut a h.1)

-- the world with another location
abbrev pub located : Str → Str → World → World
located path fragment w = record w { page = record w.page { pathname = path; fragment = fragment } }

module _ (p : Platform) where
  open p use {
    hex_encode, encode_url_safe, decode_url_safe, hex_decode-hex_encode, decode_url_safe-nil,
    decode_url_safe-encode_url_safe, encode_url_safe_alphabet,
  }

  -- a file with the hash of these bytes and this key
  abbrev pub info_of : Bytes → Bytes → FileInfo
  info_of sum key = record {
    key = some key;
    hash = some (to_lower_case (hex_encode sum));
    message_id = none;
  }

  abbrev pub written : Bytes → Str
  written bytes = strip_padding (encode_url_safe bytes)

  written-pos : (bytes : Bytes) → AreBytes bytes → 0 < length bytes → 0 < length (written bytes)
  written-pos bytes h n = by_text (written bytes) (decode_url_safe-encode_url_safe bytes h)
    where
      by_text : (a : Str) → decode_url_safe a ≡ some bytes → 0 < length a
      by_text [] e = let e' = sym decode_url_safe-nil ∙ e in ground arith
      by_text (c ∷ a) e = omega arith

  written-IsUrlSafe : (bytes : Bytes) → IsUrlSafe (written bytes)
  written-IsUrlSafe bytes =
      strip_padding-IsUrlSafe (encode_url_safe bytes) (encode_url_safe_alphabet bytes)

  module _ (sum key : Bytes) (w : World) where
    -- the world with the location of the file
    abbrev pub shown_at : World
    shown_at = located (codes "/" ++ written sum) (codes "#" ++ written key) w

    pub show_url_lem :
        AreBytes sum
        → AreBytes key
        → 0 < length key
        → show_url p (info_of sum key) w ≡ returned tt shown_at
    unfolding show_url push_state
    show_url_lem s k n =
        bind-or_raise not_hex _ _ w sum (hex_decode-hex_encode sum s)
        ∙ rw
            (
              path_of-fragment (written sum) (written key) (written-IsUrlSafe sum),
              fragment_of-fragment (written sum) (written key) (written-IsUrlSafe sum)
                  (written-pos key k n),
            )
            refl

    parse_file_url-read :
        (a b : Str)
        → 0 < length a
        → 0 < length b
        → decode_url_safe a ≡ some sum
        → decode_url_safe b ≡ some key
        → parse_file_url p (located (codes "/" ++ a) (codes "#" ++ b) w)
          ≡ returned (some (info_of sum key)) (located (codes "/" ++ a) (codes "#" ++ b) w)
    unfolding parse_file_url
    parse_file_url-read a b l m d e = ground arith

    pub parse_file_url-located :
        AreBytes sum
        → AreBytes key
        → 0 < length sum
        → 0 < length key
        → parse_file_url p shown_at ≡ returned (some (info_of sum key)) shown_at
    unfolding parse_file_url
    parse_file_url-located s k m n =
        parse_file_url-read (written sum) (written key) (written-pos sum s m) (written-pos key k n)
          (decode_url_safe-encode_url_safe sum s) (decode_url_safe-encode_url_safe key k)
