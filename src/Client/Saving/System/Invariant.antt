-- ===== src/Client/Saving/System/Invariant.antt =====
-- The save timer: there is at most one, and `saveTimer` says which. Texts in flight are not empty.
use usebin.Base.{
  ℕ, ◌≡◌, ◌≢◌, ◌⊎◌, inl, inr, refl, sym, Option, none, some, List, [], ◌∷◌, ◌++◌, Str, All,
  All-append, arith, Bool, true, false, str_eq, str_eq_iff,
}
use mathlib.Core.Path.{subst}
use usebin.Client.{FileInfo, Page}
use usebin.Client.World.{World}
use usebin.Client.Platform.{Platform}
use usebin.Client.Urls.{normalize_lines}
use usebin.Client.Urls.Lines.{normalize_lines-normalize_lines}
use usebin.Client.Saving.{schedule_try_save, start_save, clear_timeout, set_save_timer}
use usebin.Client.Saving.System.{
  System, IsPending, added, fire, Step, types, notices, fires, saves, fails, loads, gives_up, Reach,
  start, later,
}
use usebin.Client.Saving.System.Frames.{
  core, saved-core, failed-core, gave_up-core, fetch_and_display_file-page,
}

-- the pending timers are the one that `saveTimer` names
abbrev pub Timed : Option ℕ → List ℕ → Type 0
Timed none timers = timers ≡ []
Timed (some id) timers = timers ≡ id ∷ []

abbrev pub IsTimed : Page → Type 0
IsTimed page = Timed page.save_timer page.timers

abbrev pub IsNormal : Str → Type 0
IsNormal t = normalize_lines t ≡ t

abbrev pub IsPostable : Str → Type 0
IsPostable t = (t ≢ []) × IsNormal t

pub schedule_try_save-IsTimed : (page : Page) → IsTimed page → IsTimed (schedule_try_save page)
unfolding schedule_try_save set_save_timer clear_timeout
schedule_try_save-IsTimed page h = ground arith

pub schedule_try_save-texts :
    (page : Page)
    → ((schedule_try_save page).text ≡ page.text)
      × ((schedule_try_save page).textbox ≡ page.textbox)
unfolding schedule_try_save set_save_timer clear_timeout
schedule_try_save-texts page = ground arith

pub pending-timer :
    (page : Page) (id : ℕ) → IsTimed page → IsPending id page.timers → page.save_timer ≡ some id
pending-timer page id h q = ground arith

-- `handleTrySave` posts the text box, or finds it empty or saved already.
abbrev pub Started : Page → Option Str × Page → Type 0
Started page r =
    ((r ≡ (none, record page { save_timer = none }))
      × ((page.textbox ≡ []) ⊎ (page.text ≡ page.textbox)))
    ⊎ ((r ≡ (some page.textbox, record page { save_timer = none; text = page.textbox }))
        × (page.textbox ≢ [])
        × (page.text ≢ page.textbox))

pub start_save-Started : (page : Page) → Started page (start_save page)
unfolding start_save
start_save-Started page = by_box page.textbox
  where
    by_test :
        (c : ℕ) (t : Str) (b : Bool)
        → str_eq page.text (c ∷ t) ≡ b
        → Started
            (record page { textbox = c ∷ t })
            (elim b as (λ _. Option Str × Page) [
              | true ↦ (none, record page { textbox = c ∷ t; save_timer = none })
              | false ↦
                  (some (c ∷ t), record page { textbox = c ∷ t; save_timer = none; text = c ∷ t })
            ])
    by_test c t true q = inl (refl, inr ((str_eq_iff page.text (c ∷ t)).0 q))
    by_test c t false q = inr (refl, (λ e. cc), λ e. ground (arith, str_eq_iff page.text (c ∷ t)))

    by_box :
        (t : Str) → Started (record page { textbox = t }) (start_save (record page { textbox = t }))
    by_box [] = inl (refl, inl refl)
    by_box (c ∷ t) = by_test c t (str_eq page.text (c ∷ t)) refl

-- the timer that runs is the one that `saveTimer` names, and none is left
pub cleared :
    (page : Page) (id : ℕ)
    → IsTimed page
    → IsPending id page.timers
    → (clear_timeout id page).timers ≡ []
unfolding clear_timeout
cleared page id h q = ground arith

pub record Inv (s : System) : Type 0 where
  pub timed : IsTimed s.world.page
  pub box_normal : IsNormal s.world.page.textbox
  pub postable : All IsPostable s.in_flight

-- the system behind `handleTrySave` up to its first `await`
abbrev pub behind : System → Option Str × Page → System
behind s r = record s { world = record s.world { page = r.1 }; in_flight = added r.0 s.in_flight }

fire-Inv : (s : System) (id : ℕ) → IsPending id s.world.page.timers → Inv s → Inv (fire id s)
unfolding clear_timeout
fire-Inv s id q h =
    by_start (start_save (clear_timeout id s.world.page))
      (start_save-Started (clear_timeout id s.world.page))
  where
    by_start :
        (r : Option Str × Page) → Started (clear_timeout id s.world.page) r → Inv (behind s r)
    by_start r (inl (e, x)) =
        subst (λ r. Inv (behind s r)) (sym e)
          (record {
            timed = cleared s.world.page id h.timed q;
            box_normal = h.box_normal;
            postable = h.postable;
          })
    by_start r (inr (e, x, y)) =
        subst (λ r. Inv (behind s r)) (sym e)
          (record {
            timed = cleared s.world.page id h.timed q;
            box_normal = h.box_normal;
            postable = All-append IsPostable s.in_flight _ h.postable ((x, h.box_normal), tt);
          })

-- another location, and other texts in flight
pub core-Inv :
    (s : System) (texts : List Str) (loading : Option FileInfo) (w : World)
    → Inv s
    → All IsPostable texts
    → core w.page ≡ core s.world.page
    → Inv (record { world = w; in_flight = texts; loading = loading })
core-Inv s texts loading w h a e = record {
  timed = subst IsTimed (sym e) h.timed;
  box_normal = subst (λ page. IsNormal page.textbox) (sym e) h.box_normal;
  postable = a;
}

-- a file that is shown
shown-Inv :
    (s : System) (w : World) (t : Str)
    → Inv s
    → w.page ≡ record s.world.page { text = t; textbox = normalize_lines t }
    → Inv (record s { world = w; loading = none })
shown-Inv s w t h e = record {
  timed = subst IsTimed (sym e) h.timed;
  box_normal = subst (λ page. IsNormal page.textbox) (sym e) (normalize_lines-normalize_lines t);
  postable = h.postable;
}

All-without : (a b : List Str) (t : Str) → All IsPostable (a ++ t ∷ b) → All IsPostable (a ++ b)
All-without [] b t h = h.1
All-without (x ∷ a) b t h = (h.0, All-without a b t h.1)

module _ (p : Platform) where
  Step-Inv : {s t : System} → Step p s t → Inv s → Inv t
  Step-Inv {s} (types text e) h = rw e (record {
    timed = h.timed;
    box_normal = normalize_lines-normalize_lines text;
    postable = h.postable;
  })
  Step-Inv {s} (notices e) h = rw e (record {
    timed = schedule_try_save-IsTimed s.world.page h.timed;
    box_normal = subst IsNormal (sym (schedule_try_save-texts s.world.page).1) h.box_normal;
    postable = h.postable;
  })
  Step-Inv {s} (fires id q e) h = rw e (fire-Inv s id q h)
  Step-Inv {s} (saves a b text w f e g) h = rw g (
      core-Inv s (a ++ b) s.loading w h (All-without a b text (subst (All IsPostable) f h.postable))
        (saved-core p (some text) s.world w e))
  Step-Inv {s} (fails a b text err w f e g) h = rw g (
      core-Inv s (a ++ b) s.loading w h (All-without a b text (subst (All IsPostable) f h.postable))
        (failed-core p (some text) err s.world w e))
  Step-Inv {s} (loads file w f e g) h =
      let (t, d) = fetch_and_display_file-page p file s.world w e in rw g (shown-Inv s w t h d)
  Step-Inv {s} (gives_up file err w w' f e c g) h =
      rw g (core-Inv s s.in_flight none w' h h.postable (gave_up-core p file err s.world w w' e c))

  -- From a system in which the timers that are pending are the one that `saveTimer` names, or none where
  -- it is null, in which the text box holds what a text area can hold, and the texts in flight
  -- are such texts, not empty: whatever the steps, this stays so.
  pub Reach-Inv : {s t : System} → Inv s → Reach p s t → Inv t
  Reach-Inv h start = h
  Reach-Inv h (later r st) = Step-Inv st (Reach-Inv h r)
