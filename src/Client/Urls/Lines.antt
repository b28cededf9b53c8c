-- ===== src/Client/Urls/Lines.antt =====
-- A text area's value has no carriage return, and is its own value.
use usebin.Base.{◌≡◌, ◌≢◌, refl, [], ◌∷◌, arith, Str, All}
use usebin.Client.Urls.{normalize_lines}

abbrev NoCr : Str → Type 0
NoCr = All (λ c. c ≢ 0x0d)

normalize_lines-NoCr : (s : Str) → NoCr (normalize_lines s)
unfolding normalize_lines
normalize_lines-NoCr [] = tt
normalize_lines-NoCr (c ∷ []) = ground arith
normalize_lines-NoCr (c ∷ d ∷ s) = let h = normalize_lines-NoCr (d ∷ s) in ground arith

normalize_lines-eq : (s : Str) → NoCr s → normalize_lines s ≡ s
unfolding normalize_lines
normalize_lines-eq [] h = refl
normalize_lines-eq (c ∷ []) h = ground arith
normalize_lines-eq (c ∷ d ∷ s) h = let e = normalize_lines-eq (d ∷ s) h.1 in ground arith

pub normalize_lines-normalize_lines :
    (s : Str) → normalize_lines (normalize_lines s) ≡ normalize_lines s
normalize_lines-normalize_lines s = normalize_lines-eq (normalize_lines s) (normalize_lines-NoCr s)
