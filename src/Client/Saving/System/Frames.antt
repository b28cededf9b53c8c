-- ===== src/Client/Saving/System/Frames.antt =====
-- What the calls of frontend/usebin.ts leave of the page: a post changes nothing of it, the end of a
-- save its location, and a file that is loaded the text and the text box.
use usebin.Base.{◌≡◌, refl, ap, sym, ◌∙◌, arith, Option, none, some, [], Bytes, Str}
use usebin.Bytes.{from_string}
use usebin.Client.{FileInfo, Page, Request, Response, ClientError, rejected}
use usebin.Client.Platform.{Platform}
use usebin.Client.Urls.{normalize_lines}
use usebin.Client.Location.{push_state, parse_file_url, show_url}
use usebin.Client.Download.{fetch_text, fetch_and_display_file}
use usebin.Client.Upload.{post_file}
use usebin.Client.Upload.Counts.{post_file-Used}
use usebin.Client.Download.Kept.{Keeps-show_url, Keeps-fetch_text}
use usebin.Client.Saving.{finish_save}
use usebin.Client.World.{
  World, C, Run, returned, threw, stuck, or_raise, get_page, set_page, ◌>>=◌, fetch,
}
use usebin.Client.World.Keeps.{
  Ends, Keeps, Preorder, Keeps-returned, Keeps-threw, Keeps-pure, Keeps-bind, bind-eq-returned,
  then_do,
}

-- the page without its location
abbrev pub core : Page → Page
core page = record page { pathname = []; fragment = [] }

abbrev pub SamePage : World → World → Type 0
SamePage w v = v.page ≡ w.page

abbrev pub SameCore : World → World → Type 0
SameCore w v = core v.page ≡ core w.page

SamePage-Preorder : Preorder SamePage
SamePage-Preorder = record { reflexive = λ w. refl; transitive = λ u v w h k. k ∙ h }

SameCore-Preorder : Preorder SameCore
SameCore-Preorder = record { reflexive = λ w. refl; transitive = λ u v w h k. k ∙ h }

Ends-map :
    {P Q : World → Type 0} {A : Type 0}
    → ((w : World) → P w → Q w)
    → (r : Run A) → Ends P r
    → Ends Q r
Ends-map f (returned a w) h = f w h
Ends-map f (threw e w) h = f w h
Ends-map f stuck h = tt

abbrev world_or : {A : Type 0} → World → Run A → World
world_or w r = elim r [ returned a v ↦ v | threw e v ↦ v | stuck ↦ w ]

module _ (p : Platform) where
  open p use {lib, respond, open_secret_box}

  post_file-SamePage : (bytes : Bytes) → Keeps SamePage (post_file p bytes)
  post_file-SamePage bytes = record {
    at = λ w.
        Ends-map (λ v (n, a, b, u). u.page_kept) (post_file p bytes w) (post_file-Used p bytes w);
  }

  post_file-SameCore : (bytes : Bytes) → Keeps SameCore (post_file p bytes)
  post_file-SameCore bytes = record {
    at = λ w. Ends-map (λ v h. ap core h) (post_file p bytes w) ((post_file-SamePage bytes).at w);
  }

  push_state-SameCore : (url : Str) → Keeps SameCore (push_state url)
  unfolding push_state
  push_state-SameCore url = record { at = λ w. refl }

  show_url-SameCore : (file : FileInfo) → Keeps SameCore (show_url p file)
  show_url-SameCore = Keeps-show_url SameCore-Preorder p push_state-SameCore

  finish_save-SameCore : (posted : Option Str) → Keeps SameCore (finish_save p posted)
  unfolding finish_save
  finish_save-SameCore none = Keeps-pure SameCore-Preorder tt
  finish_save-SameCore (some s) =
      Keeps-bind SameCore-Preorder _ _ (post_file-SameCore (from_string s)) show_url-SameCore

  fetch-SamePage : (request : Request) → Keeps SamePage (fetch p request)
  unfolding fetch
  fetch-SamePage request = record { at = λ w. by_answer w _ (respond w.requests request) refl }
    where
      by_answer :
          (w v : World) (o : Option Response)
          → v.page ≡ w.page
          → Ends (SamePage w) (or_raise rejected o v)
      by_answer w v none h = h
      by_answer w v (some resp) h = h

  fetch_text-SamePage : (file : FileInfo) → Keeps SamePage (fetch_text p file)
  fetch_text-SamePage = Keeps-fetch_text SamePage-Preorder p (λ id. fetch-SamePage _)

  -- a file that is shown has become the text and the value of the text box
  pub fetch_and_display_file-page :
      (file : FileInfo) (w w' : World)
      → fetch_and_display_file p file w ≡ returned tt w'
      → (t : Str) × (w'.page ≡ record w.page { text = t; textbox = normalize_lines t })
  unfolding fetch_and_display_file
  fetch_and_display_file-page file w w' e =
      let (t, v, a, b) = bind-eq-returned (fetch_text p file) _ w w' tt e in
      (
        t,
        sym (ap (λ r. (world_or v r).page) b)
            ∙ ap {A = Page} (λ page. record page { text = t; textbox = normalize_lines t })
                (Keeps-returned (fetch_text p file) w v t (fetch_text-SamePage file) a),
      )

  fetch_and_display_file-threw :
      (file : FileInfo) (err : ClientError) (w w' : World)
      → fetch_and_display_file p file w ≡ threw err w'
      → w'.page ≡ w.page
  unfolding fetch_and_display_file
  fetch_and_display_file-threw file err w w' e =
      split (fetch_text p file w) ((fetch_text-SamePage file).at w) e
    where
      display : Str → C (Unit {0})
      display t =
          get_page >>= λ page. set_page (record page { text = t; textbox = normalize_lines t })

      split :
          (r : Run Str) → Ends (SamePage w) r → then_do display r ≡ threw err w' → w'.page ≡ w.page
      split (returned t v) h q = cc
      split (threw err' v) h q = sym (ap (λ r. (world_or v r).page) q) ∙ h
      split stuck h q = cc

  -- the steps of the page that leave all but the location
  pub saved-core :
      (posted : Option Str) (w w' : World)
      → finish_save p posted w ≡ returned tt w'
      → core w'.page ≡ core w.page
  saved-core posted w w' e =
      Keeps-returned (finish_save p posted) w w' tt (finish_save-SameCore posted) e

  pub failed-core :
      (posted : Option Str) (err : ClientError) (w w' : World)
      → finish_save p posted w ≡ threw err w'
      → core w'.page ≡ core w.page
  failed-core posted err w w' e =
      Keeps-threw (finish_save p posted) w w' err (finish_save-SameCore posted) e

  pub gave_up-core :
      (file : FileInfo) (err : ClientError) (w v w' : World)
      → fetch_and_display_file p file w ≡ threw err v
      → push_state [] v ≡ returned tt w'
      → core w'.page ≡ core w.page
  gave_up-core file err w v w' e c =
      Keeps-returned (push_state []) v w' tt (push_state-SameCore []) c
      ∙ ap core (fetch_and_display_file-threw file err w v e)

  pub parse_file_url-SamePage : Keeps SamePage (parse_file_url p)
  unfolding parse_file_url
  parse_file_url-SamePage = record { at = λ w. ground arith }
