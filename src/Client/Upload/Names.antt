-- ===== src/Client/Upload/Names.antt =====
-- The names that `yEncFileEncode` makes up: letters and digits, which the header can carry.
use usebin.Base.{
  ℕ, zero, suc, ◌+◌, ◌≤◌, ◌<◌, ◌≡◌, ◌≢◌, refl, Bool, true, ◌&&◌, some, [], ◌∷◌, ◌++◌, arith, leb,
  Bytes, Str, codes, length, get_elem?, All, All-append, All-map_imp,
}
use mathlib.Core.List.{reverse, reverse-reverse, reverse-cons}
use usebin.Js.Parse.{is_space, trim_start, trim}
use usebin.Utf8.{scalars, all_units, units}
use usebin.Utf8.RoundTrip.{NoBom}
use usebin.Utf8.Octets.{IsText}
use usebin.Yenc.RoundTrip.Headers.{IsName}
use usebin.Client.Platform.{Platform}
use usebin.Client.Upload.{name_chars, char_at}
use usebin.Client.Upload.Draws.{drawn, drawn-lt, name_from, name_at}

abbrev IsVisible : ℕ → Type 0
IsVisible c = (33 ≤ c) × (c < 127)

all_visible : Str → Bool
all_visible [] = true
all_visible (c ∷ s) = (leb 33 c && leb c 126) && all_visible s

all_visible-All : (s : Str) → all_visible s ≡ true → All IsVisible s
unfolding all_visible
all_visible-All [] h = tt
all_visible-All (c ∷ s) h = ground (arith, all_visible-All s)

All-get_elem? :
    (s : Str) (i : ℕ)
    → All IsVisible s
    → i < length s
    → (c : ℕ) × (get_elem? s i ≡ some c) × IsVisible c
All-get_elem? [] i h l = absurd (omega arith)
All-get_elem? (c ∷ s) zero h l = (c, refl, h.0)
All-get_elem? (c ∷ s) (suc i) h l = All-get_elem? s i h.1 (omega arith)

name_chars-IsVisible : All IsVisible name_chars
unfolding all_visible
name_chars-IsVisible = all_visible-All name_chars refl

char_at-IsVisible : (i : ℕ) → i < 62 → All IsVisible (char_at name_chars i)
char_at-IsVisible i l =
    let (c, e, v) = All-get_elem? name_chars i name_chars-IsVisible l in rw e (v, tt)

-- ASCII is its own sequence of scalar values, and of code units
scalars_visible : (s : Str) → All IsVisible s → scalars s ≡ s
unfolding scalars
scalars_visible [] h = refl
scalars_visible (c ∷ []) h = ground arith
scalars_visible (c ∷ d ∷ s) h = ground (arith, scalars_visible (d ∷ s))

all_units_visible : (s : Str) → All IsVisible s → all_units s ≡ s
unfolding all_units units
all_units_visible [] h = refl
all_units_visible (c ∷ s) h = ground (arith, all_units_visible s)

trim_start_visible : (s : Str) → All IsVisible s → trim_start s ≡ s
unfolding trim_start is_space
trim_start_visible [] h = refl
trim_start_visible (c ∷ s) h = ground arith

All-reverse : (s : Str) → All IsVisible s → All IsVisible (reverse s)
All-reverse [] h = tt
All-reverse (c ∷ s) h =
    rw (reverse-cons c s) (All-append IsVisible (reverse s) (c ∷ []) (All-reverse s h.1) (h.0, tt))

trim_visible : (s : Str) → All IsVisible s → trim s ≡ s
unfolding trim
trim_visible s h =
    rw (trim_start_visible s h, trim_start_visible (reverse s) (All-reverse s h))
      (reverse-reverse s)

NoBom-visible : (s : Str) → All IsVisible s → NoBom s
NoBom-visible [] h = tt
NoBom-visible (c ∷ s) h = omega arith

pub IsName-visible : (s : Str) → s ≢ [] → All IsVisible s → IsName s
IsName-visible s n h = record {
  not_empty = n;
  units_fit = All-map_imp (λ c v. omega arith) s h;
  well_formed = rw (scalars_visible s h) (all_units_visible s h);
  no_mark = rw (scalars_visible s h) (NoBom-visible s h);
  no_cr = All-map_imp (λ c v. omega arith) s h;
  no_lf = All-map_imp (λ c v. omega arith) s h;
  trimmed = trim_visible s h;
}

append-ne_nil : (s t : Str) → t ≢ [] → s ++ t ≢ []
append-ne_nil [] t n = n
append-ne_nil (c ∷ s) t n = λ e. cc

module _ (p : Platform) where
  name_from-IsVisible : (n d : ℕ) → All IsVisible (name_from p n d)
  name_from-IsVisible zero d = tt
  name_from-IsVisible (suc n) d =
      All-append IsVisible (char_at name_chars (drawn p d 62)) (name_from p n (d + 1))
        (char_at-IsVisible (drawn p d 62) (drawn-lt p d 62 (omega arith)))
        (name_from-IsVisible n (d + 1))

  name_at-IsVisible : (d : ℕ) (bytes : Bytes) → All IsVisible (name_at p d bytes)
  name_at-IsVisible d bytes =
      All-append IsVisible (name_from p 22 d) (codes ".rar") (name_from-IsVisible 22 d)
        (omega arith)

  pub name_at-IsText : (d : ℕ) (bytes : Bytes) → All IsText (name_at p d bytes)
  name_at-IsText d bytes =
      All-map_imp (λ c v. (omega arith, λ e. omega arith, λ e. omega arith)) (name_at p d bytes)
        (name_at-IsVisible d bytes)

  pub name_at-IsName : (d : ℕ) (bytes : Bytes) → IsName (name_at p d bytes)
  name_at-IsName d bytes =
      IsName-visible (name_at p d bytes) (append-ne_nil (name_from p 22 d) (codes ".rar") (λ e. cc))
        (name_at-IsVisible d bytes)
