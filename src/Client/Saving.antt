-- ===== src/Client/Saving.antt =====
-- The save timer of frontend/usebin.ts: `scheduleTrySave`, which the events of the page call, and
-- `handleTrySave`, which the timer calls. `handleTrySave` runs up to its first `await` without
-- interruption (`start_save`); what follows the post is `Location.show_url`.
pub mod Posted
pub mod Visits
pub mod Whole
pub mod System
use usebin.Base.{
  ℕ, ◌+◌, not, true, false, Option, none, some, List, [], ◌∷◌, ◌++◌, ◌==◌, if◌then◌else◌, Bytes,
  Str, str_eq,
}
use usebin.Bytes.{from_string}
use usebin.Client.{FileInfo, Page}
use usebin.Client.Platform.{Platform}
use usebin.Client.Location.{show_url}
use usebin.Client.Upload.{post_file}
use usebin.Client.World.{World, C, Run, pure, get_page, set_page, ◌>>=◌, ◌>>◌}

-- `clearTimeout` on the timers that are pending
abbrev pub without : ℕ → List ℕ → List ℕ
without id [] = []
without id (t ∷ ts) = let rest = without id ts in if t == id then rest else t ∷ rest

unfoldable pub clear_timeout : ℕ → Page → Page
clear_timeout id page = record page { timers = without id page.timers }

-- `saveTimer = setTimeout(handleTrySave, 4000)`
unfoldable pub set_save_timer : Page → Page
set_save_timer page = record page {
  save_timer = some page.next_timer;
  timers = page.timers ++ page.next_timer ∷ [];
  next_timer = page.next_timer + 1;
}

-- `scheduleTrySave`
unfoldable pub schedule_try_save : Page → Page
schedule_try_save page = elim page.save_timer [
  | none ↦ set_save_timer page
  | some id ↦ set_save_timer (clear_timeout id page)
]

-- `handleTrySave` up to `postFile`: the text that is posted, if any, and the page
unfoldable pub start_save : Page → Option Str × Page
start_save page = elim page.textbox [
  | [] ↦ (none, record page { save_timer = none })
  | c ∷ s ↦ elim (str_eq page.text (c ∷ s)) [
    | true ↦ (none, record page { save_timer = none })
    | false ↦ (some (c ∷ s), record page { save_timer = none; text = c ∷ s })
  ]
]

module _ (p : Platform) where
  -- the rest of `handleTrySave`
  unfoldable pub finish_save : Option Str → C (Unit {0})
  finish_save none = pure tt
  finish_save (some s) = do file ← post_file p (from_string s); show_url p file

  -- `handleTrySave`, where nothing happens to the page during the post
  unfoldable pub handle_try_save : C (Unit {0})
  handle_try_save = do
    page ← get_page
    let (posted, started) = start_save page
    set_page started
    finish_save posted
