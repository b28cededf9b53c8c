-- ===== src/Client/Saving/System/Silent.antt =====
-- A post that fails is not repeated: `handleTrySave` has noted the text as saved before it was posted.
use usebin.Base.{ℕ, ◌≡◌, inl, inr, refl, ap, sym, ◌∙◌, Option, none, some, List, [], ◌∷◌, ◌++◌, Str}
use mathlib.Core.Path.{subst}
use usebin.Client.{Page, ClientError}
use usebin.Client.Platform.{Platform}
use usebin.Client.World.{World, threw}
use usebin.Client.Saving.{start_save, clear_timeout, finish_save}
use usebin.Client.Saving.System.{
  System, fire, Step, types, notices, fires, saves, fails, loads, gives_up,
}
use usebin.Client.Saving.System.Frames.{failed-core}
use usebin.Client.Saving.System.Invariant.{
  Started, start_save-Started, schedule_try_save-texts, behind,
}

module _ (p : Platform) where
  -- steps that leave the value of the text box as it is
  pub data Untouched (s : System) : System → Type 0 where
    still : Untouched s s
    on :
        {t u : System}
        → Untouched s t
        → Step p t u
        → u.world.page.textbox ≡ t.world.page.textbox
        → Untouched s u

  -- nothing is in flight or loading, the text box is the text saved last, and nothing is sent
  record IsSilent (w : World) (s : System) : Type 0 where
    none_in_flight : s.in_flight ≡ []
    none_loading : s.loading ≡ none
    saved : s.world.page.text ≡ s.world.page.textbox
    none_sent : s.world.requests ≡ w.requests

  fire-IsSilent : (w : World) (s : System) (id : ℕ) → IsSilent w s → IsSilent w (fire id s)
  unfolding clear_timeout
  fire-IsSilent w s id h =
      by_start (start_save (clear_timeout id s.world.page))
        (start_save-Started (clear_timeout id s.world.page))
    where
      by_start :
          (r : Option Str × Page)
          → Started (clear_timeout id s.world.page) r
          → IsSilent w (behind s r)
      by_start r (inl (e, x)) =
          subst (λ r. IsSilent w (behind s r)) (sym e)
            (record {
              none_in_flight = h.none_in_flight;
              none_loading = h.none_loading;
              saved = h.saved;
              none_sent = h.none_sent;
            })
      by_start r (inr (e, x, y)) = absurd (y h.saved)

  none-in : (a b : List Str) (t : Str) (texts : List Str) → texts ≡ [] → texts ≡ a ++ t ∷ b → ⊥
  none-in [] b t texts e f = let g = sym e ∙ f in cc
  none-in (x ∷ a) b t texts e f = let g = sym e ∙ f in cc

  Step-IsSilent :
      (w : World) {s t : System}
      → Step p s t
      → t.world.page.textbox ≡ s.world.page.textbox
      → IsSilent w s
      → IsSilent w t
  Step-IsSilent w {s} (types text e) k h =
      let box = sym (ap (λ t. t.world.page.textbox) e) ∙ k in
      subst (IsSilent w) (sym e) (record {
        none_in_flight = h.none_in_flight;
        none_loading = h.none_loading;
        saved = h.saved ∙ sym box;
        none_sent = h.none_sent;
      })
  Step-IsSilent w {s} (notices e) k h =
      let (text, box) = schedule_try_save-texts s.world.page in
      subst (IsSilent w) (sym e) (record {
        none_in_flight = h.none_in_flight;
        none_loading = h.none_loading;
        saved = text ∙ h.saved ∙ sym box;
        none_sent = h.none_sent;
      })
  Step-IsSilent w {s} (fires id q e) k h = subst (IsSilent w) (sym e) (fire-IsSilent w s id h)
  Step-IsSilent w {s} (saves a b text v f e g) k h =
      absurd (none-in a b text s.in_flight h.none_in_flight f)
  Step-IsSilent w {s} (fails a b text err v f e g) k h =
      absurd (none-in a b text s.in_flight h.none_in_flight f)
  Step-IsSilent w {s} (loads file v f e g) k h = let n = sym h.none_loading ∙ f in cc
  Step-IsSilent w {s} (gives_up file err v v' f e c g) k h = let n = sym h.none_loading ∙ f in cc

  Untouched-IsSilent : (w : World) {s t : System} → IsSilent w s → Untouched s t → IsSilent w t
  Untouched-IsSilent w h still = h
  Untouched-IsSilent w h (on r st k) = Step-IsSilent w st k (Untouched-IsSilent w h r)

  -- A post that fails while nothing else is in flight or loading, and the text box holds what was
  -- posted: however many events and timers follow, as long as the text box keeps its value nothing is
  -- sent, and nothing is in flight.
  pub fails-IsSilent :
      (text : Str) (err : ClientError) (s t : System) (w : World)
      → s.in_flight ≡ text ∷ []
      → s.loading ≡ none
      → s.world.page.text ≡ s.world.page.textbox
      → finish_save p (some text) s.world ≡ threw err w
      → Untouched (record s { world = w; in_flight = [] }) t
      → (t.world.requests ≡ w.requests) × (t.in_flight ≡ [])
  fails-IsSilent text err s t w a b c e r =
      let same = failed-core p (some text) err s.world w e in
      let silent =
        Untouched-IsSilent w
          (record {
            none_in_flight = refl;
            none_loading = b;
            saved = ap (λ page. page.text) same ∙ c ∙ sym (ap (λ page. page.textbox) same);
            none_sent = refl;
          })
          r in
      (silent.none_sent, silent.none_in_flight)
