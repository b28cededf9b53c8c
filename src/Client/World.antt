-- ===== src/Client/World.antt =====
-- The calls of frontend/usebin.ts: what a call reads and changes, and how it ends. A call changes the
-- page, takes the next random numbers and keys, and sends requests.
pub mod Keeps
use usebin.Base.{ℕ, ◌+◌, ◌*◌, ◌/◌, ◌^◌, Option, none, some, List, [], ◌∷◌, ◌++◌, Bytes, Str}
use usebin.Yenc.{Outcome, ok, throw, spin}
use usebin.Client.{Page, Request, Response, ClientError, yenc_error, rejected}
use usebin.Client.Platform.{Platform}

-- the page, the numbers of random draws and of keys so far, and the requests sent, in order
pub record World : Type 0 where
  pub page : Page
  pub draws : ℕ
  pub keys : ℕ
  pub requests : List Request

-- A call returns, throws, or has not ended within its fuel.
pub data Run {ℓ} (A : Type ℓ) : Type ℓ where
  returned : A → World → Run A
  threw : ClientError → World → Run A
  stuck : Run A

abbrev pub C : Type 0 → Type 0
C A = World → Run A

infixl 5 ◌>>=◌ ◌>>◌
abbrev pub ◌>>=◌ : {A B : Type 0} → C A → (A → C B) → C B
◌>>=◌ m f w = elim (m w) [ returned a w' ↦ f a w' | threw e w' ↦ threw e w' | stuck ↦ stuck ]

abbrev pub ◌>>◌ : {A B : Type 0} → C A → C B → C B
m >> k = m >>= λ _. k

abbrev pub pure : {A : Type 0} → A → C A
pure a w = returned a w

abbrev pub raise : {A : Type 0} → ClientError → C A
raise e w = threw e w

-- a call of the yEnc codec
abbrev pub lift : {A : Type 0} → Outcome A → C A
lift (ok a) w = returned a w
lift (throw e) w = threw (yenc_error e) w
lift spin w = stuck

abbrev pub or_raise : {A : Type 0} → ClientError → Option A → C A
or_raise e none w = threw e w
or_raise e (some a) w = returned a w

abbrev pub get_page : C Page
get_page w = returned w.page w

abbrev pub set_page : Page → C (Unit {0})
set_page p w = returned tt (record w { page = p })

module _ (p : Platform) where
  open p use {random, respond, generate_key}

  -- `randomInt(max)`, with the product taken exactly
  unfoldable pub random_int : ℕ → C ℕ
  random_int max w = returned (random w.draws * max / 2 ^ 53) (record w { draws = w.draws + 1 })

  -- `nacl.generateKey()`
  unfoldable pub new_key : C Bytes
  new_key w = returned (generate_key w.keys) (record w { keys = w.keys + 1 })

  -- `await fetch(...)`
  unfoldable pub fetch : Request → C Response
  fetch request w =
      let w' = record w { requests = w.requests ++ request ∷ [] } in
      or_raise rejected (respond w.requests request) w'
