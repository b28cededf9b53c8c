-- ===== src/Client/Urls.antt =====
-- The text around URLs in frontend/usebin.ts: what stands in the location, how a saved file is written
-- there and read from it, and the endpoints of the server.
pub mod Lines
use usebin.Base.{
  ℕ, ◌+◌, Bool, true, false, ◌&&◌, ◌||◌, Option, none, some, List, [], ◌∷◌, ◌++◌, map, leb, ltb,
  ◌==◌, if◌then◌else◌, Bytes, Str, codes, length, take, drop,
}
use usebin.Yenc.Reader.Cuts.{until, from}

-- `replace(/=+$/, '')`
unfoldable pub strip_padding : Str → Str
strip_padding [] = []
strip_padding (c ∷ s) =
    let rest = strip_padding s in
    elim rest [ [] ↦ if c == b'=' then [] else c ∷ [] | d ∷ t ↦ c ∷ d ∷ t ]

-- `toLowerCase()`, on the ASCII text that `hex.encode` gives
unfoldable pub to_lower_case : Str → Str
to_lower_case = map (λ c. if leb b'A' c && leb c b'Z' then c + 32 else c)

-- `fileEndpoint`
unfoldable pub file_endpoint : Str → Str → Str
file_endpoint origin message_id = origin ++ (codes "/m/" ++ (message_id ++ codes ".csv"))

-- `encryptedFileMessageID`
unfoldable pub encrypted_file_message_id : Str → Str
encrypted_file_message_id hash = hash ++ codes "@ngPost.com"

-- the path and the fragment of the part of a URL behind its origin, as `location` has them
unfoldable pub path_of : Str → Str
path_of [] = codes "/"
path_of (c ∷ s) = until (λ d. d == b'?' || d == b'#') (c ∷ s)

unfoldable pub fragment_of : Str → Str
fragment_of s = let rest = from (λ d. d == b'#') s in if ltb (length rest) 2 then [] else rest

-- the value of a text area: what was put into it with its line ends as line feeds
unfoldable pub normalize_lines : Str → Str
normalize_lines [] = []
normalize_lines (c ∷ []) = (if c == 0x0d then 0x0a else c) ∷ []
normalize_lines (c ∷ d ∷ s) =
    let rest = normalize_lines (d ∷ s) in
    if c == 0x0d then (if d == 0x0a then rest else 0x0a ∷ rest) else c ∷ rest
