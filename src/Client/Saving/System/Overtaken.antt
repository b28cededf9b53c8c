-- ===== src/Client/Saving/System/Overtaken.antt =====
-- Two saves that wait for their posts: the one that is answered last decides the location.
use usebin.Base.{◌≡◌, refl, ap, sym, ◌∙◌, some, [], ◌∷◌, ◌++◌, Bytes, Str, codes, take}
use mathlib.Core.Path.{subst}
use usebin.Bytes.{from_string}
use usebin.Client.Platform.{Platform}
use usebin.Client.Location.{show_url}
use usebin.Client.Location.RoundTrip.{written}
use usebin.Client.Upload.{post_file}
use usebin.Client.Upload.Rounds.{IsPosted, encrypted_at, info_at, post_file-IsPosted}
use usebin.Client.Saving.{finish_save}
use usebin.Client.Saving.Posted.{show_url-info_at}
use usebin.Client.Saving.System.{System, saves, Reach, start, later}
use usebin.Client.Saving.System.Frames.{saved-core}
use usebin.Client.World.{World, Run, returned}
use usebin.Client.World.Keeps.{bind-eq-returned}

module _ (p : Platform) where
  open p use {generate_key, sha256_hash}

  -- the location is that of a file with this text, encrypted under the i-th key
  abbrev pub IsAt : Bytes → World → World → Type 0
  IsAt bytes u w =
      (w.page.pathname ≡ codes "/" ++ written p (take 16 (sha256_hash (encrypted_at p bytes u))))
      × (w.page.fragment ≡ codes "#" ++ written p (generate_key u.keys))

  same_world : (w v : World) → ◌≡◌ {A = Run (Unit {0})} (returned tt w) (returned tt v) → w ≡ v
  same_world w v e = cc

  -- a save that ends has put the location of its file
  pub finish_save-IsAt :
      (s : Str) (v w : World)
      → finish_save p (some s) v ≡ returned tt w
      → (u : World) × IsAt (from_string s) u w
  unfolding finish_save
  finish_save-IsAt s v w e =
      let (info, v1, posted, shown) =
        bind-eq-returned (post_file p (from_string s)) (show_url p) v w tt e in
      let (n, u, resp, l, r, a, ok, same_info, same_world1) =
        subst (IsPosted p (from_string s) 3 v) posted (post_file-IsPosted p (from_string s) v) in
      let same = same_world _ w (
        sym (show_url-info_at p (from_string s) u)
        ∙ ap (show_url p (info_at p (from_string s) u)) (sym same_world1)
        ∙ ap (λ i. show_url p i v1) (sym same_info)
        ∙ shown) in
      (u, (ap (λ w. w.page.pathname) (sym same), ap (λ w. w.page.fragment) (sym same)))

  -- Where two saves are in flight, and the post of the later one is answered first and then that of the
  -- earlier one, both with success, the page comes to a state in which nothing is in flight, the
  -- text box and the text saved last are what they were, and the location is that of a file with the
  -- text of the earlier save.
  pub saves_overtaken :
      (old new : Str) (s : System) (v w : World)
      → s.in_flight ≡ old ∷ new ∷ []
      → finish_save p (some new) s.world ≡ returned tt v
      → finish_save p (some old) v ≡ returned tt w
      → (t : System) × (u : World) × Reach p s t
        × (t.in_flight ≡ [])
        × (t.world.page.textbox ≡ s.world.page.textbox)
        × (t.world.page.text ≡ s.world.page.text)
        × IsAt (from_string old) u t.world
  saves_overtaken old new s v w e f g =
      let (u, at) = finish_save-IsAt old v w g in
      let same = saved-core p (some old) v w g ∙ saved-core p (some new) s.world v f in
      (
        record s { world = w; in_flight = [] },
        u,
        later (later start (saves (old ∷ []) [] new v e f refl)) (saves [] [] old w refl g refl),
        refl,
        ap (λ page. page.textbox) same,
        ap (λ page. page.text) same,
        at,
      )
