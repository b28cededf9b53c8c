-- ===== src/Client/Saving/Visits.antt =====
-- The two ends of a text's way: `handleTrySave` on a text that is not saved, and `main` in a page that is
-- opened at a location.
use usebin.Base.{◌≡◌, ◌≢◌, refl, none, some, List, [], ◌∷◌, arith, Str, str_eq_iff}
use usebin.Client.{Page, Request, at_origin}
use usebin.Client.Saving.{start_save}
use usebin.Client.World.{World}

-- the world in which the text is posted
abbrev pub started : Str → World → World
started s w = record w { page = record w.page { save_timer = none; text = s } }

pub start_save-unsaved :
    (page : Page) (s : Str)
    → page.textbox ≡ s
    → s ≢ []
    → page.text ≢ s
    → start_save page ≡ (some s, record page { save_timer = none; text = s })
unfolding start_save
start_save-unsaved page [] e n u = absurd (n refl)
start_save-unsaved page (c ∷ s) e n u = ground (arith, str_eq_iff page.text (c ∷ s))

-- a page that is opened at the location of another world, with requests that were sent before
abbrev pub visit : List Request → World → World
visit before w = record {
  page = at_origin w.page.pathname w.page.fragment;
  draws = 0;
  keys = 0;
  requests = before;
}
