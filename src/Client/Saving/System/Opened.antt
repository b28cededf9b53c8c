-- ===== src/Client/Saving/System/Opened.antt =====
-- The invariant of the save timer, from the moment the module is loaded.
use usebin.Base.{◌≡◌, refl, ap, ◌∙◌, Option, none, [], Str}
use usebin.Client.{FileInfo, at_origin}
use usebin.Client.Platform.{Platform}
use usebin.Client.Urls.{normalize_lines}
use usebin.Client.Location.{push_state, parse_file_url}
use usebin.Client.World.{World, Run, returned, threw, stuck}
use usebin.Client.World.Keeps.{Ends}
use usebin.Client.Saving.System.{System, opened, Reach}
use usebin.Client.Saving.System.Frames.{core, SamePage, parse_file_url-SamePage}
use usebin.Client.Saving.System.Invariant.{Inv, core-Inv, Reach-Inv}

-- a page without text and timers
blank-Inv :
    (w v : World) (path fragment : Str)
    → w.page ≡ at_origin path fragment
    → core v.page ≡ core w.page
    → (loading : Option FileInfo) → Inv (record { world = v; in_flight = []; loading = loading })
unfolding normalize_lines
blank-Inv w v path fragment e same loading =
    core-Inv
      (record {
        world = record w { page = at_origin path fragment };
        in_flight = [];
        loading = none;
      })
      [] loading v (record { timed = refl; box_normal = refl; postable = tt }) tt (same ∙ ap core e)

opened-Inv :
    (w : World) (path fragment : Str) (r : Run (Option FileInfo))
    → w.page ≡ at_origin path fragment
    → Ends (SamePage w) r
    → Inv (opened w r)
unfolding push_state
opened-Inv w path fragment (returned found v) e h = blank-Inv w v path fragment e (ap core h) found
opened-Inv w path fragment (threw err v) e h = blank-Inv w _ path fragment e (ap core h) none
opened-Inv w path fragment stuck e h = blank-Inv w w path fragment e refl none

module _ (p : Platform) where
  -- At every time after the module has been loaded, in a page at any location whose text and text box
  -- are empty, whatever the events, the timer and the server do, and in any order: the pending
  -- timers are the one that `saveTimer` names, or none where it is null; the text box holds what a
  -- text area can hold; and the texts in flight are such texts, not empty.
  pub Reach-opened-Inv :
      (w : World) (path fragment : Str) {s : System}
      → w.page ≡ at_origin path fragment
      → Reach p (opened w (parse_file_url p w)) s
      → Inv s
  Reach-opened-Inv w path fragment e r =
      Reach-Inv p
        (opened-Inv w path fragment (parse_file_url p w) e ((parse_file_url-SamePage p).at w)) r
