-- ===== src/Client/Saving/Posted.antt =====
-- The end of a save whose post is accepted: the location is that of the file.
use usebin.Base.{
  ℕ, ◌≤◌, ◌<◌, ◌≡◌, ◌∙◌, some, arith, Bytes, Str, length, take, All-take, length-take,
}
use usebin.Bytes.{from_string}
use usebin.Client.{Response}
use usebin.Client.Platform.{Platform, AreBytes}
use usebin.Client.Location.{show_url}
use usebin.Client.Location.RoundTrip.{shown_at, show_url_lem}
use usebin.Client.Upload.{hash_of, post_file}
use usebin.Client.Upload.Rounds.{Refused, encrypted_at, info_at, request_at, after_post}
use usebin.Client.Upload.Accepted.{post_file-accepted}
use usebin.Client.Saving.{finish_save}
use usebin.Client.World.{World, returned}
use usebin.Client.World.Keeps.{bind-returned}

module _ (p : Platform) (bytes : Bytes) (u : World) where
  open p use {
    generate_key, sha256_hash, length-generate_key, generate_key-AreBytes, length-sha256_hash,
    sha256_hash-AreBytes,
  }

  -- the bytes of the hash of a round
  abbrev pub sum : Bytes
  sum = take 16 (sha256_hash (encrypted_at p bytes u))

  pub sum-AreBytes : AreBytes sum
  sum-AreBytes =
      All-take (λ b. b < 256) 16 (sha256_hash (encrypted_at p bytes u)) (sha256_hash-AreBytes _)

  pub sum-pos : 0 < length sum
  sum-pos = omega (
    arith,
    length-take 16 (sha256_hash (encrypted_at p bytes u)),
    length-sha256_hash (encrypted_at p bytes u),
  )

  pub key-pos : 0 < length (generate_key u.keys)
  key-pos = omega (arith, length-generate_key u.keys)

  -- the world behind the round, with the location of its file
  abbrev pub placed : World
  placed = shown_at p sum (generate_key u.keys) (after_post p bytes u)

  pub show_url-info_at : show_url p (info_at p bytes u) (after_post p bytes u) ≡ returned tt placed
  unfolding hash_of
  show_url-info_at =
      show_url_lem p sum (generate_key u.keys) (after_post p bytes u) sum-AreBytes
        (generate_key-AreBytes u.keys) key-pos

pub finish_save-accepted :
    (p : Platform) (s : Str) (n : ℕ) (w u : World) (resp : Response)
    → n ≤ 3
    → Refused p (from_string s) n w u
    → p.respond u.requests (request_at p (from_string s) u) ≡ some resp
    → resp.status ≡ 200
    → finish_save p (some s) w ≡ returned tt (placed p (from_string s) u)
unfolding finish_save
finish_save-accepted p s n w u resp l r a ok =
    bind-returned (post_file p (from_string s)) (show_url p) w _ _
      (post_file-accepted p (from_string s) n w u resp l r a ok)
    ∙ show_url-info_at p (from_string s) u
