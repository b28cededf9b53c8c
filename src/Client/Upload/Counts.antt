-- ===== src/Client/Upload/Counts.antt =====
-- What `postFile` uses up: one key and one request in each round, and nothing of the page.
use usebin.Base.{
  ℕ, zero, suc, ◌+◌, ◌≤◌, ◌<◌, ◌≡◌, refl, ap, sym, ◌∙◌, inl, inr, [], ◌∷◌, arith, Bytes, length,
  length-append,
}
use mathlib.Core.Path.{subst}
use usebin.Client.{FileInfo}
use usebin.Client.Platform.{Platform}
use usebin.Client.Upload.{post_file}
use usebin.Client.Upload.Rounds.{request_at, after_post, Refused, IsPosted, post_file-IsPosted}
use usebin.Client.World.{World, Run, returned, threw, stuck}
use usebin.Client.World.Keeps.{Ends}

-- `n` rounds lie between two worlds
pub record Used (n : ℕ) (w v : World) : Type 0 where
  pub keys_used : v.keys ≡ w.keys + n
  pub requests_sent : length v.requests ≡ length w.requests + n
  pub page_kept : v.page ≡ w.page

module _ (p : Platform) (bytes : Bytes) where
  Used-after_post : (n : ℕ) (w v : World) → Used n w v → Used (suc n) w (after_post p bytes v)
  Used-after_post n w v h = record {
    keys_used = omega (arith, h.keys_used);
    requests_sent =
        omega (arith, length-append v.requests (request_at p bytes v ∷ []), h.requests_sent);
    page_kept = h.page_kept;
  }

  Refused-Used : (n m : ℕ) (w u v : World) → Used m w u → Refused p bytes n u v → Used (m + n) w v
  Refused-Used zero m w u v h e = record {
    keys_used = omega (arith, h.keys_used, ap (λ x. x.keys) e);
    requests_sent = omega (arith, h.requests_sent, ap (λ x. length x.requests) e);
    page_kept = ap (λ x. x.page) (sym e) ∙ h.page_kept;
  }
  Refused-Used (suc n) m w u v h (resp, a, s, r) =
      subst (λ k. Used k w v) (omega arith)
        (Refused-Used n (suc m) w (after_post p bytes u) v (Used-after_post m w u h) r)

  -- However `postFile` ends, it has drawn as many keys as it has sent requests, at least one and at
  -- most four, and has left the page as it was.
  pub post_file-Used :
      (w : World) → Ends (λ v. (n : ℕ) × (0 < n) × (n ≤ 4) × Used n w v) (post_file p bytes w)
  post_file-Used w = by_end (post_file p bytes w) (post_file-IsPosted p bytes w)
    where
      nothing : Used 0 w w
      nothing = record { keys_used = omega arith; requests_sent = omega arith; page_kept = refl }

      after :
          (n : ℕ) (u v : World)
          → n ≤ 3
          → Refused p bytes n w u
          → v ≡ after_post p bytes u
          → (n : ℕ) × (0 < n) × (n ≤ 4) × Used n w v
      after n u v l r e = (
        suc n,
        omega arith,
        omega arith,
        subst (Used (suc n) w) (sym e) (
            Used-after_post n w u (
              subst (λ k. Used k w u) {x = 0 + n} (omega arith)
                (Refused-Used n 0 w w u nothing r))),
      )

      by_end :
          (r : Run FileInfo)
          → IsPosted p bytes 3 w r
          → Ends (λ v. (n : ℕ) × (0 < n) × (n ≤ 4) × Used n w v) r
      by_end (returned file v) (n, u, a, l, r, b, c, d, e) = after n u v l r e
      by_end (threw err v) (inl (n, u, l, r, a, b, e)) = after n u v l r e
      by_end (threw err v) (inr (u, a, r, b, c, d, e)) = after 3 u v (omega arith) r e
      by_end stuck h = absurd h
