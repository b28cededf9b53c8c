-- ===== src/Client/Saving/System.antt =====
-- The page of frontend/usebin.ts while it runs: what the events, the timer and the answers of the server
-- do to it, one step at a time and in any order. A save that waits for its post is in flight; its
-- post is taken as one step, since it does not look at the page.
pub mod Frames
pub mod Invariant
pub mod Keys
pub mod Opened
pub mod Debounce
pub mod Silent
pub mod Overtaken
use usebin.Base.{ℕ, ◌≡◌, ◌⊎◌, Option, none, some, List, [], ◌∷◌, ◌++◌, Str, codes}
use usebin.Client.{FileInfo, Page, ClientError}
use usebin.Client.Platform.{Platform}
use usebin.Client.Urls.{normalize_lines}
use usebin.Client.Location.{push_state, parse_file_url}
use usebin.Client.Download.{fetch_and_display_file}
use usebin.Client.Saving.{schedule_try_save, start_save, finish_save, clear_timeout}
use usebin.Client.World.{World, Run, returned, threw, stuck}

-- the world, the texts of the saves that wait for their posts, and the file that `main` waits for
pub record System : Type 0 where
  pub world : World
  pub in_flight : List Str
  pub loading : Option FileInfo

abbrev pub on_page : (Page → Page) → System → System
on_page f s = record s { world = record s.world { page = f s.world.page } }

-- the user's input
abbrev pub type_text : Str → System → System
type_text t = on_page (λ page. record page { textbox = normalize_lines t })

-- an event of the page that `scheduleTrySave` listens to
abbrev pub notice : System → System
notice = on_page schedule_try_save

abbrev pub added : Option Str → List Str → List Str
added none texts = texts
added (some t) texts = texts ++ t ∷ []

-- the timer with this number: `handleTrySave` up to its first `await`
abbrev pub fire : ℕ → System → System
fire id s =
    let (posted, page) = start_save (clear_timeout id s.world.page) in
    record s { world = record s.world { page = page }; in_flight = added posted s.in_flight }

-- the world in which a call ends, if it does
abbrev pub world_behind : {A : Type 0} → World → Run A → World
world_behind w r = elim r [ returned a w' ↦ w' | threw e w' ↦ w' | stuck ↦ w ]

abbrev pub idle : World → Option FileInfo → System
idle w loading = record { world = w; in_flight = []; loading = loading }

-- the system when the module has been loaded, and `main` has called `parseFileURL`
abbrev pub opened : World → Run (Option FileInfo) → System
opened w (returned found w') = idle w' found
opened w (threw e w') = idle (world_behind w' (push_state [] w')) none
opened w stuck = idle w none

abbrev pub IsPending : ℕ → List ℕ → Type 0
IsPending id [] = ⊥
IsPending id (t ∷ ts) = (id ≡ t) ⊎ IsPending id ts

module _ (p : Platform) where
  pub data Step (s t : System) : Type 0 where
    types : (text : Str) → t ≡ type_text text s → Step s t
    notices : t ≡ notice s → Step s t
    fires : (id : ℕ) → IsPending id s.world.page.timers → t ≡ fire id s → Step s t
    -- a post that is answered, and one that fails
    saves :
        (before after : List Str) (text : Str) (w : World)
        → s.in_flight ≡ before ++ text ∷ after
        → finish_save p (some text) s.world ≡ returned tt w
        → t ≡ record s { world = w; in_flight = before ++ after }
        → Step s t
    fails :
        (before after : List Str) (text : Str) (e : ClientError) (w : World)
        → s.in_flight ≡ before ++ text ∷ after
        → finish_save p (some text) s.world ≡ threw e w
        → t ≡ record s { world = w; in_flight = before ++ after }
        → Step s t
    -- the file that `main` waits for is shown, or cannot be shown
    loads :
        (file : FileInfo) (w : World)
        → s.loading ≡ some file
        → fetch_and_display_file p file s.world ≡ returned tt w
        → t ≡ record s { world = w; loading = none }
        → Step s t
    gives_up :
        (file : FileInfo) (e : ClientError) (w w' : World)
        → s.loading ≡ some file
        → fetch_and_display_file p file s.world ≡ threw e w
        → push_state [] w ≡ returned tt w'
        → t ≡ record s { world = w'; loading = none }
        → Step s t

  pub data Reach (s : System) : System → Type 0 where
    start : Reach s s
    later : {t u : System} → Reach s t → Step t u → Reach s u
