-- ===== src/Http/Client.antt =====
-- `ApiClient` of frontend/src/lib/api-client.ts, and the two calls that go to `fetch` directly: `login`
-- of frontend/src/features/auth/api.ts and `uploadLogo` of frontend/src/features/tenants/api.ts.
pub mod Laws
use dopacrm.Base.{
  Bool, true, false, not, String, ◌<>◌, Option, none, some, ℕ, eqb, decimal, if◌then◌else◌,
}
use dopacrm.Http.Json.{Json, null, str, is_truthy, property}
use dopacrm.Http.Fetch.{
  Method, Body, no_body, json_body, form_body, Call, Response, is_ok, Fetch, Thrown, api_error,
  plain_error, Result, ok, err,
}

-- `res.json()`: the value, or a `SyntaxError`.
abbrev pub read_json : Response → Result (Option Json)
read_json res = elim res.json [ none ↦ err (plain_error "SyntaxError") | some v ↦ ok (some v) ]

-- `typeof data.detail === "string" ? data.detail : otherwise`
abbrev pub string_or : String → Option Json → String
string_or otherwise (some (str detail)) = detail
string_or otherwise _ = otherwise

-- What a response that is not ok throws, once `res.json().catch(() => ({}))` is awaited: `data.detail`
-- of the JSON text `null` is a `TypeError`.
abbrev pub detail_error : (String → Thrown) → String → Response → Thrown
detail_error throw otherwise res = elim res.json [
  | none ↦ throw otherwise
  | some null ↦ plain_error "TypeError"
  | some value ↦ throw (string_or otherwise (property "detail" value))
]

abbrev pub api_base : String
api_base = "/api/v1"

-- `body ? JSON.stringify(body) : undefined`
abbrev pub encode_body : Option Json → Body
encode_body none = no_body
encode_body (some v) = if is_truthy v then json_body v else no_body

abbrev pub api_call : Method → String → Option Json → Call
api_call method path body = record {
  method = method;
  url = api_base <> path;
  is_json = true;
  with_cookies = true;
  body = encode_body body;
}

-- What `request` makes of a response; `ok none` is `undefined`.
unfoldable pub receive : Response → Result (Option Json)
receive res =
    if eqb res.status 204
    then ok none
    else if eqb res.status 401
    then err (api_error "Unauthorized" 401)
    else if not (is_ok res)
    then err (
        detail_error (λ detail. api_error detail res.status)
          ("Request failed: " <> decimal res.status) res)
    else read_json res

abbrev pub login_call : Json → Call
login_call credentials = record {
  method = Method.post;
  url = "/api/v1/auth/login";
  is_json = true;
  with_cookies = true;
  body = json_body credentials;
}

abbrev pub upload_call : String → Call
upload_call file = record {
  method = Method.post;
  url = "/api/v1/uploads/logo";
  is_json = false;
  with_cookies = true;
  body = form_body file;
}

module _ (fetch : Fetch) where
  unfoldable pub request : Method → String → Option Json → Result (Option Json)
  unfolding receive
  request method path body = elim (fetch (api_call method path body)) [
    | none ↦ err (api_error "network" 0)
    | some res ↦ receive res
  ]

  unfoldable pub get : String → Result (Option Json)
  unfolding request
  get path = request Method.get path none

  unfoldable pub post : String → Option Json → Result (Option Json)
  unfolding request
  post path body = request Method.post path body

  unfoldable pub patch : String → Option Json → Result (Option Json)
  unfolding request
  patch path body = request Method.patch path body

  unfoldable pub delete : String → Result (Option Json)
  unfolding request
  delete path = request Method.delete path none

  unfoldable pub login : Json → Result (Option Json)
  login credentials = elim (fetch (login_call credentials)) [
    | none ↦ err (api_error "network" 0)
    | some res ↦
        if not (is_ok res)
        then err (detail_error (λ detail. api_error detail res.status) res.status_text res)
        else read_json res
  ]

  -- A rejected `fetch` is not caught here.
  unfoldable pub upload_logo : String → Result (Option Json)
  upload_logo file = elim (fetch (upload_call file)) [
    | none ↦ err (plain_error "Failed to fetch")
    | some res ↦
        if not (is_ok res)
        then err (detail_error plain_error ("Upload failed: " <> decimal res.status) res)
        else read_json res
  ]
