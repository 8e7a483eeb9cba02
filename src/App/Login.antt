-- ===== src/App/Login.antt =====
-- frontend/src/features/auth/LoginPage.tsx: the form, and what its submission does to the session. What `getMe`
-- gives after the login is an argument, with `none` for any error.
pub mod Laws
use dopacrm.Base.{Bool, true, false, String, Option, none, some, get_or}
use dopacrm.Auth.Types.{User}
use dopacrm.Auth.Session.{Session, refresh, fetched}
use dopacrm.Http.Json.{Json, obj, str, field, end}
use dopacrm.Http.Fetch.{Fetch, Result, ok, err}
use dopacrm.Http.Client.{login}
use dopacrm.Http.Messages.{Message}
use dopacrm.Http.Messages.Humanize.{humanize_login_error}
use dopacrm.App.Routes.{Router, View, visit}

pub record LoginForm : Type 0 where
  pub email : String
  pub password : String
  pub error : Option Message
  pub loading : Bool

-- `LoginRequest`
abbrev pub credentials : LoginForm → Json
credentials f = obj (field "email" (str f.email) (field "password" (str f.password) end))

-- What the whole page is made of: the form, the session of the provider, and the address.
pub record Portal : Type 0 where
  pub form : LoginForm
  pub session : Session
  pub address : String

-- The first lines of `handleSubmit`.
abbrev pub start : LoginForm → LoginForm
start f = record f { error = none; loading = true }

-- `await refreshAuth()`: one more `getMe`, whose error the provider takes.
abbrev pub refresh_auth : Option User → Session → Session
refresh_auth me s = fetched me s.fetches (refresh s)

-- The rest of `handleSubmit`, for what `login` gives.
abbrev pub finish : Result (Option Json) → Option User → Portal → Portal
finish (ok _) me p = record {
  form = record (start p.form) { loading = false };
  session = refresh_auth me p.session;
  address = "/dashboard";
}
finish (err e) me p = record p {
  form = record (start p.form) { error = some (humanize_login_error e); loading = false };
}

module _ (fetch : Fetch) where
  -- `handleSubmit`
  unfoldable pub handle_submit : Option User → Portal → Portal
  unfolding login
  handle_submit me p = finish (login fetch (credentials p.form)) me p

-- What is rendered then.
unfoldable pub shown : Router → Portal → View
unfolding visit
shown router p = visit router 1 p.session p.address
