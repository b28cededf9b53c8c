-- ===== src/Client/Upload/Rounds.antt =====
-- The loop of `postFile`: one round exactly, and how the rounds end.
use usebin.Base.{
  ℕ, zero, suc, ◌+◌, ◌≤◌, ◌≡◌, ◌≢◌, refl, ap, sym, ◌∙◌, ◌⊎◌, inl, inr, Bool, true, false, Option,
  none, some, [], ◌∷◌, ◌++◌, arith, Bytes, ltb, ◌==◌,
}
use mathlib.Core.Path.{subst}
use usebin.Client.{FileInfo, Method, Request, Response, failed_to_post, rejected}
use usebin.Client.Platform.{Platform}
use usebin.Client.Urls.{file_endpoint, encrypted_file_message_id}
use usebin.Yenc.RoundTrip.Whole.{text_of}
use usebin.Client.Upload.{nonce, hash_of, y_enc_file_encode, post_once, post_loop, post_file}
use usebin.Client.Upload.Draws.{article_at}
use usebin.Client.Upload.Articles.{after_article, y_enc_file_encode_lem}
use usebin.Client.World.{
  World, C, Run, returned, threw, stuck, pure, raise, or_raise, new_key, fetch,
}
use usebin.Client.World.Keeps.{bind-returned, bind-threw, then_do}

module _ (p : Platform) (bytes : Bytes) where
  open p use {lib, origin, respond, generate_key, secret_box}

  module _ (w : World) where
    -- what a round encrypts, and what it sends
    abbrev pub encrypted_at : Bytes
    encrypted_at = secret_box (generate_key w.keys) nonce bytes

    abbrev pub info_at : FileInfo
    info_at = record {
      key = some (generate_key w.keys);
      hash = some (hash_of p encrypted_at);
      message_id = none;
    }

    abbrev pub request_at : Request
    request_at = record {
      method = Method.post;
      url = file_endpoint origin (encrypted_file_message_id (hash_of p encrypted_at));
      body = text_of lib (article_at p w.draws encrypted_at);
    }

    abbrev pub after_post : World
    after_post = record (after_article w) {
      keys = w.keys + 1;
      requests = w.requests ++ request_at ∷ [];
    }

    -- the end of a round, by the answer
    abbrev pub answered : Option Response → Run (FileInfo × Response)
    answered none = threw rejected after_post
    answered (some resp) = returned (info_at, resp) after_post

    pub post_once_lem : post_once p bytes w ≡ answered (respond w.requests request_at)
    unfolding post_once new_key fetch
    post_once_lem =
        bind-returned (y_enc_file_encode p encrypted_at) _ (record w { keys = w.keys + 1 }) _ _
          (y_enc_file_encode_lem p encrypted_at (record w { keys = w.keys + 1 }))
        ∙ by_answer (respond w.requests request_at)
      where
        by_answer :
            (o : Option Response)
            → then_do (λ resp. pure (info_at, resp)) (or_raise rejected o after_post) ≡ answered o
        by_answer none = refl
        by_answer (some resp) = refl

  -- `n` rounds in a row from one world to another, each with an answer that is not 200
  abbrev pub Refused : ℕ → World → World → Type 0
  Refused zero w v = w ≡ v
  Refused (suc n) w v =
      (resp : Response) × (respond w.requests (request_at w) ≡ some resp)
      × (resp.status ≢ 200)
      × Refused n (after_post w) v

  -- how a run of at most `k + 1` rounds ends: with the file of the first round that was answered by
  -- 200, with the error of the first request that could not be sent, or, where all were
  -- refused, with the answer of the last
  abbrev pub IsPosted : ℕ → World → Run FileInfo → Type 0
  IsPosted k w (returned file w') =
      (n : ℕ) × (u : World) × (resp : Response) × (n ≤ k)
      × Refused n w u
      × (respond u.requests (request_at u) ≡ some resp)
      × (resp.status ≡ 200)
      × (file ≡ info_at u)
      × (w' ≡ after_post u)
  IsPosted k w (threw e w') =
      ((n : ℕ) × (u : World) × (n ≤ k)
        × Refused n w u
        × (respond u.requests (request_at u) ≡ none)
        × (e ≡ rejected)
        × (w' ≡ after_post u))
      ⊎ ((u : World) × (resp : Response) × Refused k w u
          × (respond u.requests (request_at u) ≡ some resp)
          × (resp.status ≢ 200)
          × (e ≡ failed_to_post resp.status resp.status_text)
          × (w' ≡ after_post u))
  IsPosted k w stuck = ⊥

  IsPosted-again :
      (k : ℕ) (w : World) (resp : Response) (r : Run FileInfo)
      → respond w.requests (request_at w) ≡ some resp
      → resp.status ≢ 200
      → IsPosted k (after_post w) r
      → IsPosted (suc k) w r
  IsPosted-again k w resp (returned file w') e s (n, u, a, l, h, b, c, d, f) =
      (suc n, u, a, omega arith, (resp, e, s, h), b, c, d, f)
  IsPosted-again k w resp (threw err w') e s (inl (n, u, l, h, b, c, d)) =
      inl (suc n, u, omega arith, (resp, e, s, h), b, c, d)
  IsPosted-again k w resp (threw err w') e s (inr (u, a, h, b, c, d, f)) =
      inr (u, a, (resp, e, s, h), b, c, d, f)
  IsPosted-again k w resp stuck e s h = h

  module _ (k retries : ℕ) where
    -- the sequel of an answer that is not 200, and of any answer, by the tests
    abbrev pub next_try : Bool → Response → C FileInfo
    next_try b resp = elim b as (λ _. C FileInfo) [
      | true ↦ post_loop p k (retries + 1) bytes
      | false ↦ raise (failed_to_post resp.status resp.status_text)
    ]

    abbrev pub next_round : Bool → FileInfo → Response → C FileInfo
    next_round b file resp = elim b as (λ _. C FileInfo) [
      | true ↦ pure file
      | false ↦ next_try (ltb retries 3) resp
    ]

    abbrev pub sequel : FileInfo × Response → C FileInfo
    sequel x = next_round (x.1.status == 200) x.0 x.1

    -- one round, where the rounds after it are known
    round-IsPosted :
        (w : World)
        → ((resp : Response)
            → respond w.requests (request_at w) ≡ some resp
            → resp.status ≢ 200
            → IsPosted k w (next_try (ltb retries 3) resp (after_post w)))
        → IsPosted k w (post_loop p (suc k) retries bytes w)
    unfolding post_loop
    round-IsPosted w next = by_answer (respond w.requests (request_at w)) refl
      where
        by_status :
            (resp : Response) (b : Bool)
            → respond w.requests (request_at w) ≡ some resp
            → resp.status == 200 ≡ b
            → IsPosted k w (next_round b (info_at w) resp (after_post w))
        by_status resp true e s = (0, w, resp, omega arith, refl, e, ground arith, refl, refl)
        by_status resp false e s = next resp e (ground arith)

        by_answer :
            (o : Option Response)
            → respond w.requests (request_at w) ≡ o
            → IsPosted k w (post_loop p (suc k) retries bytes w)
        by_answer none e =
            subst (IsPosted k w)
              (sym
                (bind-threw (post_once p bytes) sequel w _ _ (post_once_lem w ∙ ap (answered w) e)))
              (inl (0, w, omega arith, refl, e, refl, refl))
        by_answer (some resp) e =
            subst (IsPosted k w)
              (sym (
                bind-returned (post_once p bytes) sequel w _ _
                  (post_once_lem w ∙ ap (answered w) e)))
              (by_status resp (resp.status == 200) e refl)

  -- from where `k` more tries are left
  post_loop-IsPosted :
      (k retries : ℕ) (w : World)
      → k + retries ≡ 3
      → IsPosted k w (post_loop p (suc k) retries bytes w)
  post_loop-IsPosted zero retries w s = round-IsPosted zero retries w (λ resp e n.
      subst (λ b. IsPosted 0 w (next_try 0 retries b resp (after_post w))) {x = false}
        (ground arith) (inr (w, resp, refl, e, n, refl, refl)))
  post_loop-IsPosted (suc k) retries w s = round-IsPosted (suc k) retries w (λ resp e n.
      subst (λ b. IsPosted (suc k) w (next_try (suc k) retries b resp (after_post w))) {x = true}
        (ground arith)
        (IsPosted-again k w resp _ e n
          (post_loop-IsPosted k (retries + 1) (after_post w) (omega arith))))

  -- `postFile` ends, and does so in one of three ways: it returns the file of the first round that is
  -- answered by 200, after at most three that are answered otherwise; it throws as soon as a request
  -- cannot be sent; or it throws, with the last answer, after four rounds that are answered otherwise.
  pub post_file-IsPosted : (w : World) → IsPosted 3 w (post_file p bytes w)
  unfolding post_file
  post_file-IsPosted w = post_loop-IsPosted 3 0 w refl
