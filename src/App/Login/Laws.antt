-- ===== src/App/Login/Laws.antt =====
-- Where a login leads.
use dopacrm.Base.{◌≡◌, refl, ap, ◌∙◌, false, String, Option, none, some}
use dopacrm.Auth.Types.{User}
use dopacrm.Auth.Session.{Session, refresh, fetched}
use dopacrm.Http.Json.{Json}
use dopacrm.Http.Fetch.{Fetch, Result, ok, err}
use dopacrm.Http.Client.{login}
use dopacrm.Http.Messages.Humanize.{humanize_login_error}
use dopacrm.App.Routes.{Page, Router, View, show, redirect, open_at, visit}
use dopacrm.App.Routes
use dopacrm.App.Laws.{open_at-login, open_at-dashboard, open_at-dashboard_out}
use dopacrm.App.Login.{credentials, Portal, refresh_auth, finish, handle_submit, shown}

-- What the user sees of an answer to the login: the dashboard, the form with no text, or the form with the text of the
-- error.
abbrev pub Answered : Router → Result (Option Json) → Option User → Portal → Type 0
Answered router (ok _) (some u) p =
    (shown router p ≡ show Routes.dashboard) × (p.session.user ≡ some u)
Answered router (ok _) none p =
    (shown router p ≡ show Routes.login) × (p.form.error ≡ none) × (p.form.loading ≡ false)
Answered router (err e) me p =
    (shown router p ≡ show Routes.login)
    × (p.form.error ≡ some (humanize_login_error e))
    × (p.form.loading ≡ false)

module _ (router : Router) (s : Session) (path : String) where
  visit-show : (q : Page) → open_at router s path ≡ show q → visit router 1 s path ≡ show q
  unfolding visit
  visit-show q h = rw (h, visit) refl

  visit-redirect :
      (to : String)
      → open_at router s path ≡ redirect to
      → visit router 1 s path ≡ open_at router s to
  unfolding visit
  visit-redirect to h = rw (h, visit) refl

finish-Answered :
    (router : Router) (r : Result (Option Json)) (me : Option User) (p : Portal)
    → p.session.is_loading ≡ false
    → p.address ≡ "/login"
    → Answered router r me (finish r me p)
unfolding shown refresh fetched
finish-Answered router (ok _) (some u) p loaded at = (
  visit-show router (refresh_auth (some u) p.session) "/dashboard" Routes.dashboard
      (open_at-dashboard (refresh_auth (some u) p.session) refl router refl),
  refl,
)
finish-Answered router (ok _) none p loaded at = (
  visit-redirect router (refresh_auth none p.session) "/dashboard" "/login"
        (open_at-dashboard_out (refresh_auth none p.session) refl router refl)
      ∙ open_at-login (refresh_auth none p.session) refl router,
  refl,
  refl,
)
finish-Answered router (err e) me p loaded at = (
  ap (visit router 1 p.session) at
      ∙ visit-show router p.session "/login" Routes.login (open_at-login p.session loaded router),
  refl,
  refl,
)

-- A user submits the form of the login page, once the session has loaded. If the login fails, the form shows the text of
-- its error. If it succeeds and the user can then be read, the dashboard is shown to that user. If the user cannot be
-- read, the login page is shown again, with no text.
pub handle_submit-Answered :
    (router : Router) (fetch : Fetch) (me : Option User) (p : Portal)
    → p.session.is_loading ≡ false
    → p.address ≡ "/login"
    → Answered router (login fetch (credentials p.form)) me (handle_submit fetch me p)
unfolding handle_submit
handle_submit-Answered router fetch me p loaded at =
    finish-Answered router (login fetch (credentials p.form)) me p loaded at
