-- ===== src/Http/Fetch.antt =====
-- What the client hands to `fetch` and what it gets back, and what its functions throw.
use dopacrm.Base.{Bool, ◌&&◌, String, Option, ℕ, leb}
use dopacrm.Http.Json.{Json}

pub data Method : Type 0 where
  get post patch delete : Method

pub data Body : Type 0 where
  -- `undefined`
  no_body : Body
  -- the JSON text of a value
  json_body : Json → Body
  -- a form with one file
  form_body : String → Body

pub record Call : Type 0 where
  pub method : Method
  pub url : String
  -- the `Content-Type: application/json` header
  pub is_json : Bool
  -- `credentials: "include"`
  pub with_cookies : Bool
  pub body : Body

pub record Response : Type 0 where
  pub status : ℕ
  pub status_text : String
  -- `res.json()`, `none` where it rejects
  pub json : Option Json

-- `res.ok`
abbrev pub is_ok : Response → Bool
is_ok res = leb 200 res.status && leb res.status 299

-- `none` where `fetch` rejects.
abbrev pub Fetch : Type 0
Fetch = Call → Option Response

pub data Thrown : Type 0 where
  -- `ApiError`
  api_error : String → ℕ → Thrown
  -- an `Error` of another class that has a `status`
  status_error : String → ℕ → Thrown
  -- an `Error` without one
  plain_error : String → Thrown
  -- no `Error` at all
  other : Thrown

pub data Result {ℓ} (A : Type ℓ) : Type ℓ where
  ok : A → Result A
  err : Thrown → Result A
