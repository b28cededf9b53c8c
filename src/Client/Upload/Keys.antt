-- ===== src/Client/Upload/Keys.antt =====
-- The keys of the requests that `postFile` of frontend/usebin.ts sends: each is sealed under the next
-- key, and sent to the URL of what it holds.
use usebin.Base.{
  ℕ, zero, suc, ◌+◌, ◌≡◌, refl, sym, ap, ◌∙◌, Bool, true, false, Option, none, some, List, [], ◌∷◌,
  ◌++◌, append_assoc, append-nil, All, Bytes, Str, ltb, ◌==◌,
}
use mathlib.Core.Path.{subst}
use usebin.Bytes.{from_string}
use usebin.Client.{FileInfo, Method, Request, Response}
use usebin.Client.Platform.{Platform}
use usebin.Client.Urls.{file_endpoint, encrypted_file_message_id}
use usebin.Yenc.RoundTrip.Whole.{text_of}
use usebin.Client.Upload.{nonce, hash_of, post_once, post_loop, post_file}
use usebin.Yenc.Encode.Lines.{IsClean}
use usebin.Client.Upload.Articles.{text_of-IsClean}
use usebin.Client.Upload.Draws.{article_at}
use usebin.Client.Upload.Rounds.{
  request_at, after_post, answered, post_once_lem, next_try, next_round,
}
use usebin.Client.World.{World}
use usebin.Client.World.Keeps.{Ends, Keeps, Preorder, Keeps-pure, Keeps-raise, Keeps-bind}

module _ (p : Platform) where
  open p use {lib, origin, respond, generate_key, secret_box}

  -- the request posts a text sealed under the key with this number, to the URL of its hash, as an article
  -- of bytes without NUL and carriage return
  abbrev pub IsSealed : ℕ → Request → Type 0
  IsSealed k r =
      (text : Str) × (d : ℕ) × (r.url
        ≡ file_endpoint origin (
            encrypted_file_message_id
              (hash_of p (secret_box (generate_key k) nonce (from_string text)))))
      × (r.body
          ≡ text_of lib (article_at p d (secret_box (generate_key k) nonce (from_string text))))
      × All IsClean r.body

  -- in order, each request that posts takes one key, from `k` up to `n`; the others carry nothing
  abbrev pub Sealed : ℕ → ℕ → List Request → Type 0
  Sealed k n [] = k ≡ n
  Sealed k n (r ∷ requests) = elim r.method as (λ _. Type 0) [
    | Method.post ↦ IsSealed k r × Sealed (k + 1) n requests
    | Method.get ↦ (r.body ≡ []) × Sealed k n requests
  ]

  Sealed-append :
      (k m n : ℕ) (a b : List Request) → Sealed k m a → Sealed m n b → Sealed k n (a ++ b)
  Sealed-append k m n [] b h i = subst (λ k. Sealed k n b) (sym h) i
  Sealed-append k m n (r ∷ a) b h i = by_method (λ k h. Sealed-append k m n a b h i) r.method h
    where
      by_method :
          ((k : ℕ) → Sealed k m a → Sealed k n (a ++ b))
          → (o : Method)
          → (elim o as (λ _. Type 0) [
            | Method.post ↦ IsSealed k r × Sealed (k + 1) m a
            | Method.get ↦ (r.body ≡ []) × Sealed k m a
          ])
          → elim o as (λ _. Type 0) [
            | Method.post ↦ IsSealed k r × Sealed (k + 1) n (a ++ b)
            | Method.get ↦ (r.body ≡ []) × Sealed k n (a ++ b)
          ]
      by_method append Method.post (e, s) = (e, append (k + 1) s)
      by_method append Method.get (e, s) = (e, append k s)

  -- from one world to another, the requests are sent that take the keys between
  abbrev pub Grows : World → World → Type 0
  Grows w v = (sent : List Request) × (v.requests ≡ w.requests ++ sent) × Sealed w.keys v.keys sent

  pub Grows-Preorder : Preorder Grows
  Grows-Preorder = record {
    reflexive = λ w. ([], sym (append-nil w.requests), refl);
    transitive = λ u v w (a, e, h) (b, f, i). (
      a ++ b,
      f ∙ ap (λ r. r ++ b) e ∙ append_assoc u.requests a b,
      Sealed-append u.keys v.keys w.keys a b h i,
    );
  }

  module _ (text : Str) where
    abbrev bytes : Bytes
    bytes = from_string text

    post_once-Grows : Keeps Grows (post_once p bytes)
    post_once-Grows = record {
      at = λ w.
          subst (Ends (Grows w)) (sym (post_once_lem p bytes w))
            (by_answer w (respond w.requests (request_at p bytes w)));
    }
      where
        posted : (w : World) → Grows w (after_post p bytes w)
        posted w = (
          request_at p bytes w ∷ [],
          refl,
          ((text, w.draws, refl, refl, text_of-IsClean p _ w.draws), refl),
        )

        by_answer : (w : World) (o : Option Response) → Ends (Grows w) (answered p bytes w o)
        by_answer w none = posted w
        by_answer w (some resp) = posted w

    post_loop-Grows : (fuel retries : ℕ) → Keeps Grows (post_loop p fuel retries bytes)
    unfolding post_loop
    post_loop-Grows zero retries = record { at = λ w. tt }
    post_loop-Grows (suc fuel) retries =
        Keeps-bind Grows-Preorder _ _ post_once-Grows
          (λ x. by_status (post_loop-Grows fuel (retries + 1)) (x.1.status == 200) x.0 x.1)
      where
        by_tries :
            Keeps Grows (post_loop p fuel (retries + 1) bytes)
            → (b : Bool) (resp : Response) → Keeps Grows (next_try p bytes fuel retries b resp)
        by_tries again true resp = again
        by_tries again false resp = Keeps-raise Grows-Preorder _

        by_status :
            Keeps Grows (post_loop p fuel (retries + 1) bytes)
            → (b : Bool) (file : FileInfo) (resp : Response)
            → Keeps Grows (next_round p bytes fuel retries b file resp)
        by_status again true file resp = Keeps-pure Grows-Preorder file
        by_status again false file resp = by_tries again (ltb retries 3) resp

    pub post_file-Grows : Keeps Grows (post_file p bytes)
    unfolding post_file
    post_file-Grows = post_loop-Grows 4 0
