-- ===== src/Client/Upload/Accepted.antt =====
-- `postFile` where the first answers are not 200 and the next one is.
use usebin.Base.{
  ℕ, zero, suc, ◌+◌, ◌≤◌, ◌<◌, ◌≡◌, ◌≢◌, ap, ◌∙◌, Bool, true, false, none, some, arith, Bytes, ◌==◌,
}
use usebin.Client.{Response, rejected}
use usebin.Client.Platform.{Platform}
use usebin.Client.Upload.{post_once, post_loop, post_file}
use usebin.Client.Upload.Rounds.{
  info_at, request_at, after_post, answered, post_once_lem, Refused, next_try, next_round, sequel,
}
use usebin.Client.World.{World, returned, threw}
use usebin.Client.World.Keeps.{bind-returned, bind-threw}

module _ (p : Platform) (bytes : Bytes) where
  open p use {respond}

  module _ (k retries : ℕ) (w : World) (resp : Response)
      (e : respond w.requests (request_at p bytes w) ≡ some resp) where
    -- a round, up to the test of its status
    post_loop-round :
        (b : Bool)
        → resp.status == 200 ≡ b
        → post_loop p (suc k) retries bytes w
          ≡ next_round p bytes k retries b (info_at p bytes w) resp (after_post p bytes w)
    unfolding post_loop
    post_loop-round b s =
        bind-returned (post_once p bytes) (sequel p bytes k retries) w _ _
          (post_once_lem p bytes w ∙ ap (answered p bytes w) e)
        ∙ ap (λ b. next_round p bytes k retries b (info_at p bytes w) resp (after_post p bytes w)) s

    post_loop-again :
        resp.status ≢ 200
        → retries < 3
        → post_loop p (suc k) retries bytes w
          ≡ post_loop p k (retries + 1) bytes (after_post p bytes w)
    post_loop-again s l =
        post_loop-round false (ground arith)
        ∙ ap (λ b. next_try p bytes k retries b resp (after_post p bytes w)) {y = true}
            (ground arith)

  post_loop-accepted :
      (n k retries : ℕ) (w u : World) (resp : Response)
      → n ≤ k
      → k + retries ≡ 3
      → Refused p bytes n w u
      → respond u.requests (request_at p bytes u) ≡ some resp
      → resp.status ≡ 200
      → post_loop p (suc k) retries bytes w ≡ returned (info_at p bytes u) (after_post p bytes u)
  post_loop-accepted zero k retries w u resp l s r e ok =
      ap (post_loop p (suc k) retries bytes) r
      ∙ post_loop-round k retries u resp e true (ground arith)
  post_loop-accepted (suc n) zero retries w u resp l s r e ok = absurd (omega arith)
  post_loop-accepted (suc n) (suc k) retries w u resp l s (first, e1, s1, r) e ok =
      post_loop-again (suc k) retries w first e1 s1 (omega arith)
      ∙ post_loop-accepted n k (retries + 1) (after_post p bytes w) u resp (omega arith)
          (omega arith) r e ok

  -- The file of a round that is answered by 200, after at most three rounds that are answered otherwise.
  pub post_file-accepted :
      (n : ℕ) (w u : World) (resp : Response)
      → n ≤ 3
      → Refused p bytes n w u
      → respond u.requests (request_at p bytes u) ≡ some resp
      → resp.status ≡ 200
      → post_file p bytes w ≡ returned (info_at p bytes u) (after_post p bytes u)
  unfolding post_file
  post_file-accepted n w u resp l = post_loop-accepted n 3 0 w u resp l (omega arith)

  -- A first request that cannot be sent: nothing is tried again.
  pub post_file-rejected :
      (w : World)
      → respond w.requests (request_at p bytes w) ≡ none
      → post_file p bytes w ≡ threw rejected (after_post p bytes w)
  unfolding post_file post_loop
  post_file-rejected w e =
      bind-threw (post_once p bytes) (sequel p bytes 3 0) w _ _
        (post_once_lem p bytes w ∙ ap (answered p bytes w) e)
