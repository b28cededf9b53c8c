-- ===== src/Client/Saving/System/Debounce.antt =====
-- What the save timer promises: a debouncer, which is armed or not, with no timers and no numbers. The
-- steps of the page are steps of it; and an event is followed by exactly one save.
use usebin.Base.{
  ℕ, ◌≡◌, ◌≢◌, ◌⊎◌, inl, inr, refl, ap, sym, ◌∙◌, Bool, true, false, Option, none, some, List, [],
  ◌∷◌, ◌++◌, Str, arith,
}
use mathlib.Core.Path.{subst}
use usebin.Client.{Page}
use usebin.Client.Platform.{Platform}
use usebin.Client.World.{World}
use usebin.Client.Urls.{normalize_lines}
use usebin.Client.Saving.{schedule_try_save, start_save, clear_timeout, set_save_timer}
use usebin.Client.Saving.System.{System, IsPending, added, fire, notice}
use usebin.Client.Saving.System.Invariant.{
  IsTimed, Started, start_save-Started, cleared, schedule_try_save-IsTimed, schedule_try_save-texts,
  behind, Inv,
}

-- whether a save is due, the text saved or shown last, the text box, and the texts being posted
pub record Debouncer : Type 0 where
  pub armed : Bool
  pub text : Str
  pub box : Str
  pub posting : List Str

abbrev is_set : Option ℕ → Bool
is_set none = false
is_set (some id) = true

abbrev pub view_of : Page → List Str → Debouncer
view_of page texts = record {
  armed = is_set page.save_timer;
  text = page.text;
  box = page.textbox;
  posting = texts;
}

abbrev pub view : System → Debouncer
view s = view_of s.world.page s.in_flight

pub data Turn (d e : Debouncer) : Type 0 where
  edited : (t : Str) → e ≡ record d { box = normalize_lines t } → Turn d e
  touched : e ≡ record d { armed = true } → Turn d e
  -- a save that is due: of a text, not empty, that is not the last one, or of none
  posted :
      d.armed ≡ true
      → d.box ≢ []
      → d.text ≢ d.box
      → e ≡ record d { armed = false; text = d.box; posting = d.posting ++ d.box ∷ [] }
      → Turn d e
  skipped :
      d.armed ≡ true → (d.box ≡ []) ⊎ (d.text ≡ d.box) → e ≡ record d { armed = false } → Turn d e
  finished :
      (before after : List Str) (t : Str)
      → d.posting ≡ before ++ t ∷ after
      → e ≡ record d { posting = before ++ after }
      → Turn d e
  replaced : (t : Str) → e ≡ record d { text = t; box = normalize_lines t } → Turn d e
  moved : e ≡ d → Turn d e

pub data Turns (d : Debouncer) : Debouncer → Type 0 where
  done : Turns d d
  turn : {e f : Debouncer} → Turns d e → Turn e f → Turns d f

-- the text box, where it is to be posted
abbrev pub IsSettled : Page → Type 0
IsSettled page = (page.textbox ≡ []) ⊎ (page.text ≡ page.textbox)

new_timer : (page : Page) → IsTimed page → (schedule_try_save page).timers ≡ page.next_timer ∷ []
unfolding schedule_try_save set_save_timer clear_timeout
new_timer page h = ground arith

-- what a save of the page leaves, when it has come to its first `await`
abbrev pub Saves : Page → List Str → Option Str × Page → Type 0
Saves page texts r =
    (r.1.timers ≡ [])
    × (r.1.save_timer ≡ none)
    × IsSettled r.1
    × ((IsSettled page × (added r.0 texts ≡ texts))
        ⊎ ((¬ IsSettled page) × (added r.0 texts ≡ texts ++ page.textbox ∷ [])))

IsSettled-same :
    (page q : Page) → q.text ≡ page.text → q.textbox ≡ page.textbox → IsSettled q → IsSettled page
IsSettled-same page q e f (inl x) = inl (sym f ∙ x)
IsSettled-same page q e f (inr x) = inr (sym e ∙ x ∙ f)

Started-Saves :
    (page c : Page) (texts : List Str) (r : Option Str × Page)
    → c.timers ≡ []
    → c.text ≡ page.text
    → c.textbox ≡ page.textbox
    → Started c r
    → Saves page texts r
Started-Saves page c texts r t e f (inl (g, x)) =
    subst (Saves page texts) (sym g) (t, refl, x, inl (IsSettled-same page c e f x, refl))
Started-Saves page c texts r t e f (inr (g, x, y)) =
    subst (Saves page texts) (sym g)
      (t, refl, inr refl, inr (unsettled, ap (λ b. texts ++ b ∷ []) f))
  where
    unsettled : ¬ IsSettled page
    unsettled (inl z) = x (f ∙ z)
    unsettled (inr z) = y (e ∙ z ∙ sym f)

-- In a system with the invariant, after an event exactly one timer is pending, a new one. When it fires,
-- no timer is left and `saveTimer` is null; the text box is empty or the text saved last; and the
-- texts in flight are those from before, with the text box behind them if it was neither empty nor
-- the text saved or shown last.
pub notice-fire :
    (s : System)
    → Inv s
    → ((notice s).world.page.timers ≡ s.world.page.next_timer ∷ [])
      × Saves s.world.page s.in_flight
          (start_save (clear_timeout s.world.page.next_timer (notice s).world.page))
      × (fire s.world.page.next_timer (notice s)
          ≡ behind
              (notice s)
              (start_save (clear_timeout s.world.page.next_timer (notice s).world.page)))
unfolding clear_timeout
notice-fire s h =
    let page = s.world.page in
    let id = page.next_timer in
    let noticed = schedule_try_save page in
    let one = new_timer page h.timed in
    let (text, box) = schedule_try_save-texts page in
    (
      one,
      Started-Saves page (clear_timeout id noticed) s.in_flight _
          (cleared noticed id (schedule_try_save-IsTimed page h.timed)
            (subst (IsPending id) (sym one) (inl refl)))
          text box (start_save-Started (clear_timeout id noticed)),
      refl,
    )
