-- ===== src/Client/Upload.antt =====
-- `postFile`, `yEncFileEncode` and `randomName` of frontend/usebin.ts: a text is encrypted under a new
-- key, wrapped as a part of a file that does not exist, and posted, at most four times.
pub mod Draws
pub mod Names
pub mod Articles
pub mod Rounds
pub mod Counts
pub mod Keys
pub mod Accepted
use usebin.Base.{
  ℕ, zero, suc, ◌+◌, ◌-◌, ◌*◌, true, false, Option, none, some, List, [], ◌++◌, ◌∷◌, ltb, ◌==◌,
  if◌then◌else◌, Bytes, Str, codes, length, get_elem?, take, replicate,
}
use usebin.Js.Number.{nat}
use usebin.Yenc.{YFile, line_max}
use usebin.Yenc.Encode.{encode}
use usebin.Client.{FileInfo, Method, Request, Response, ClientError, failed_to_post}
use usebin.Client.Platform.{Platform}
use usebin.Client.Urls.{to_lower_case, file_endpoint, encrypted_file_message_id}
use usebin.Client.World.{
  World, C, Run, stuck, pure, raise, lift, ◌>>=◌, ◌>>◌, random_int, new_key, fetch,
}

-- `chars`
abbrev pub name_chars : Str
name_chars = codes "abcdefghijklmnopqrstuvwxyzABCDEFGHIJKLMNOPQRSTUVWXYZ0123456789"

-- `s[i]` as it is appended to a string
abbrev pub char_at : Str → ℕ → Str
char_at s i = elim (get_elem? s i) [ none ↦ codes "undefined" | some c ↦ c ∷ [] ]

-- `new Uint8Array(24)`
abbrev pub nonce : Bytes
nonce = replicate 24 0

module _ (p : Platform) where
  open p use {lib, origin, secret_box, sha256_hash, hex_encode}

  -- the rounds left of the loop, and the name so far
  unfoldable pub random_name_rounds : ℕ → Str → C Str
  random_name_rounds zero name = pure name
  random_name_rounds (suc rounds) name = do
    i ← random_int p (length name_chars)
    random_name_rounds rounds (name ++ char_at name_chars i)

  -- `randomName`
  unfoldable pub random_name : ℕ → C Str
  random_name length = random_name_rounds length []

  -- the record that `yEncFileEncode` hands to `yenc.encode`
  unfoldable pub article : Bytes → C YFile
  article bytes = do
    name ← random_name 22
    extra ← random_int p 1000
    let total = 10 + extra
    number ← random_int p total
    short ← random_int p (length bytes)
    let size = length bytes * total - short
    begin ← random_int p (size - length bytes)
    pure record {
      name = some (name ++ codes ".rar");
      size = some (nat size);
      part = some (nat (1 + number));
      total = some (nat total);
      line = some (nat line_max);
      begin = some (nat begin);
      end = some (nat (begin + length bytes));
      content = some bytes;
    }

  -- `yEncFileEncode`
  unfoldable pub y_enc_file_encode : Bytes → C Bytes
  y_enc_file_encode bytes = do
    file ← article bytes
    (encoded, _) ← lift (encode lib file)
    pure encoded

  -- `hex.encode(sha256.hash(encrypted).subarray(0, 16)).toLowerCase()`
  unfoldable pub hash_of : Bytes → Str
  hash_of encrypted = to_lower_case (hex_encode (take 16 (sha256_hash encrypted)))

  -- one round of the loop of `postFile` up to the answer
  unfoldable pub post_once : Bytes → C (FileInfo × Response)
  post_once bytes = do
    key ← new_key p
    let encrypted = secret_box key nonce bytes
    let hash = hash_of encrypted
    encoded ← y_enc_file_encode encrypted
    resp ← fetch p record {
      method = Method.post;
      url = file_endpoint origin (encrypted_file_message_id hash);
      body = encoded;
    }
    pure (record { key = some key; hash = some hash; message_id = none }, resp)

  -- `while (true)`, with a bound on its rounds
  unfoldable pub post_loop : ℕ → ℕ → Bytes → C FileInfo
  post_loop zero retries bytes = λ w. stuck
  post_loop (suc fuel) retries bytes = do
    (file, resp) ← post_once bytes
    elim (resp.status == 200) [
      | true ↦ pure file
      | false ↦ elim (ltb retries 3) [
        | true ↦ post_loop fuel (retries + 1) bytes
        | false ↦ raise (failed_to_post resp.status resp.status_text)
      ]
    ]

  -- `postFile`; four rounds are enough, since the last of them throws
  unfoldable pub post_file : Bytes → C FileInfo
  post_file = post_loop 4 0
