-- ===== src/Tests/Saves.antt =====
-- The save timer at concrete inputs.
use usebin.Base.{◌≡◌, inl, refl, sym, none, some, [], ◌∷◌, arith, codes}
use usebin.Bytes.{from_string}
use usebin.Client.{at_origin, rejected}
use usebin.Client.Platform.{Platform}
use usebin.Client.Urls.{normalize_lines}
use mathlib.Core.Path.{subst}
use usebin.Client.Location.{parse_file_url, show_url}
use usebin.Client.World.Keeps.{bind-threw}
use usebin.Client.Upload.{post_file}
use usebin.Client.Upload.Accepted.{post_file-rejected}
use usebin.Client.Upload.Rounds.{after_post}
use usebin.Client.Saving.{schedule_try_save, start_save, set_save_timer, clear_timeout, finish_save}
use usebin.Client.Saving.System.{
  System, opened, notice, fire, type_text, types, notices, fires, Reach, start, later,
}
use usebin.Client.Saving.System.Invariant.{Inv, behind}
use usebin.Client.Saving.System.Opened.{Reach-opened-Inv}
use usebin.Client.Saving.System.Debounce.{Saves, notice-fire}
use usebin.Client.Saving.Posted.{placed, finish_save-accepted}
use usebin.Client.Saving.System.Overtaken.{IsAt, saves_overtaken}
use usebin.Client.Saving.System.Silent.{still, on, fails-IsSilent}
use usebin.Client.World.{World, threw}
use usebin.Tests.Toy.{answer, toy, no_server}

abbrev offline : Platform
offline = toy 0 (omega arith) no_server

-- a page that has just been opened
abbrev fresh : System
fresh = record {
  world = record { page = at_origin (codes "/") []; draws = 0; keys = 0; requests = [] };
  in_flight = [];
  loading = none;
}

fresh-Inv : Inv fresh
unfolding normalize_lines
fresh-Inv = record { timed = refl; box_normal = refl; postable = tt }

-- a text is typed, the events are noticed twice, and the second timer fires
abbrev noticed : System
noticed = notice (notice (type_text (codes "hi") fresh))

abbrev fired : System
fired = fire 2 noticed

fired-Reach : Reach offline fresh fired
unfolding schedule_try_save set_save_timer clear_timeout normalize_lines
fired-Reach =
    later (later (later (later start (types (codes "hi") refl)) (notices refl)) (notices refl))
      (fires 2 (inl refl) refl)

fresh-opened : opened fresh.world (parse_file_url offline fresh.world) ≡ fresh
unfolding parse_file_url
fresh-opened = refl

Reach-opened-Inv_example : Inv fired
Reach-opened-Inv_example =
    Reach-opened-Inv offline fresh.world (codes "/") [] refl
      (subst (λ s. Reach offline s fired) (sym fresh-opened) fired-Reach)

notice-fire_example :
    ((notice fresh).world.page.timers ≡ 1 ∷ [])
    × Saves fresh.world.page [] (start_save (clear_timeout 1 (notice fresh).world.page))
    × (fire 1 (notice fresh)
        ≡ behind (notice fresh) (start_save (clear_timeout 1 (notice fresh).world.page)))
notice-fire_example = notice-fire fresh fresh-Inv

-- the page while it posts the text, and the world when the post has failed
abbrev posting : System
posting = record {
  world = record {
    page = record (at_origin (codes "/") []) { text = codes "hi"; textbox = codes "hi" };
    draws = 0;
    keys = 0;
    requests = [];
  };
  in_flight = codes "hi" ∷ [];
  loading = none;
}

abbrev failed : World
failed = after_post offline (from_string (codes "hi")) posting.world

abbrev left : System
left = record posting { world = failed; in_flight = [] }

finish_save-rejected : finish_save offline (some (codes "hi")) posting.world ≡ threw rejected failed
unfolding finish_save
finish_save-rejected =
    bind-threw (post_file offline (from_string (codes "hi"))) (show_url offline) posting.world _ _
      (post_file-rejected offline (from_string (codes "hi")) posting.world refl)

fails-IsSilent_example :
    ((fire 1 (notice left)).world.requests ≡ failed.requests)
    × ((fire 1 (notice left)).in_flight ≡ [])
unfolding schedule_try_save set_save_timer clear_timeout start_save
fails-IsSilent_example =
    fails-IsSilent offline (codes "hi") rejected posting (fire 1 (notice left)) failed refl refl
      refl finish_save-rejected (on (on still (notices refl) refl) (fires 1 (inl refl) refl) refl)

-- a server that takes everything, and a page with two saves in flight
abbrev open_server : Platform
open_server = toy 0 (omega arith) (λ before r. some (answer 200 []))

abbrev hasty : System
hasty = record posting { in_flight = codes "h" ∷ codes "hi" ∷ [] }

abbrev newer_saved : World
newer_saved = placed open_server (from_string (codes "hi")) hasty.world

abbrev older_saved : World
older_saved = placed open_server (from_string (codes "h")) newer_saved

saves_overtaken_example :
    (t : System) × (u : World) × Reach open_server hasty t
    × (t.in_flight ≡ [])
    × (t.world.page.textbox ≡ codes "hi")
    × (t.world.page.text ≡ codes "hi")
    × IsAt open_server (from_string (codes "h")) u t.world
saves_overtaken_example =
    saves_overtaken open_server (codes "h") (codes "hi") hasty newer_saved older_saved refl
      (finish_save-accepted open_server (codes "hi") 0 hasty.world hasty.world (answer 200 [])
        (omega arith) refl refl refl)
      (finish_save-accepted open_server (codes "h") 0 newer_saved newer_saved (answer 200 [])
        (omega arith) refl refl refl)
