-- ===== src/App/Tests.antt =====
-- A router over the table, and the theorems on addresses at concrete sessions.
use dopacrm.Base.{
  ◌≡◌, refl, inl, inr, Bool, true, false, not, ◌&&◌, String, none, some, List, [], ◌∷◌, ◌==◌,
  string_eq, find, get_or, All, ◌&◌, sym, Bool-cases, Option-cases,
}
use mathlib.Core.Option.{some-injective}
use dopacrm.Auth.Types.{staff, User, role_eq}
use dopacrm.Auth.Permissions.{can_access, is_gated, is_enabled, feature_eq}
use dopacrm.Auth.Session.{Session}
use dopacrm.Http.Json.{obj, end}
use dopacrm.Http.Fetch.{Fetch, ok}
use dopacrm.Http.Client.{login}
use dopacrm.App.Login.{Portal, credentials, handle_submit}
use dopacrm.App.Login.Laws.{Answered, handle_submit-Answered}
use dopacrm.App.Routes.{
  Route, public, dashboard, to_root, routes, Listed, is_dynamic, Router, show, redirect, visit,
}
use dopacrm.App.Sidebar.{nav_items}
use dopacrm.App.Laws.{All-Listed, Listed-get_elem?, Settles, visit-Settles, Leads, nav_items-Leads}

abbrev is_at : String → Route → Bool
is_at path r = not (is_dynamic r.element) && r.path == path

abbrev fallback : Route
fallback = public "*" to_root

choose_exact : String → Route
unfolding string_eq
choose_exact path = get_or (find (is_at path) routes) fallback

find-Listed : (p : Route → Bool) (rs : List Route) {r : Route} → find p rs ≡ some r → Listed r rs
find-Listed p [] e = cc
find-Listed p (q ∷ rs) e = elim (Bool-cases (p q)) [
  | inl here ↦ inl (sym (some-injective q _ (rw here at e)))
  | inr there ↦ inr (find-Listed p rs (rw there at e))
]

choose_exact-Listed : (path : String) → Listed (choose_exact path) routes
unfolding choose_exact
choose_exact-Listed path = elim (Option-cases (find (is_at path) routes)) [
  | inl missing ↦ rw missing (Listed-get_elem? routes 18 refl)
  | inr (r, found) ↦ rw found (find-Listed (is_at path) routes found)
]

abbrev Found : Route → Type 0
Found r = is_dynamic r.element ≡ false → choose_exact r.path ≡ r

static-Found : All Found routes
unfolding choose_exact
static-Found =
    (λ _. refl)
    & (λ _. refl)
    & (λ _. refl)
    & (λ _. refl)
    & (λ h. cc)
    & (λ _. refl)
    & (λ h. cc)
    & (λ _. refl)
    & (λ h. cc)
    & (λ _. refl)
    & (λ h. cc)
    & (λ _. refl)
    & (λ _. refl)
    & (λ h. cc)
    & (λ _. refl)
    & (λ _. refl)
    & (λ h. cc)
    & (λ _. refl)
    & (λ h. cc)
    & tt

abbrev exact_router : Router
exact_router = record {
  choose = choose_exact;
  choose-Listed = choose_exact-Listed;
  choose_static = λ r l. All-Listed Found routes r static-Found l;
}

abbrev dana : User
dana = record {
  id = "u1";
  email = "dana@gym.example";
  first_name = some "Dana";
  last_name = none;
  phone = none;
  oauth_provider = none;
  is_active = true;
  role = staff;
  tenant_id = some "t1";
  tenant_features_enabled = ("leads", true) ∷ [];
}

abbrev at_desk : Session
at_desk = record { user = some dana; is_loading = false; fetches = 0; logouts = 0; location = none }

typed_plans :
    (visit exact_router 0 at_desk "/plans" ≡ redirect "/dashboard")
    × (visit exact_router 1 at_desk "/plans" ≡ show dashboard)
unfolding visit choose_exact can_access is_gated is_enabled feature_eq role_eq string_eq
typed_plans = (refl, refl)

visit-Settles_example : Settles at_desk refl exact_router 1 "/leads"
visit-Settles_example = visit-Settles at_desk refl exact_router "/leads"

nav_items-Leads_example : All (Leads at_desk refl exact_router) nav_items
nav_items-Leads_example = nav_items-Leads at_desk refl exact_router refl

abbrev leaving : Session
leaving = record { user = none; is_loading = false; fetches = 0; logouts = 0; location = none }

abbrev portal : Portal
portal = record {
  form = record { email = "dana@gym.com"; password = "secret"; error = none; loading = false };
  session = leaving;
  address = "/login";
}

-- A server that takes every login.
abbrev taking : Fetch
taking _ = some (record { status = 200; status_text = ""; json = some (obj end) })

handle_submit-Answered_example :
    Answered exact_router
      (login taking (credentials portal.form))
      (some dana)
      (handle_submit taking (some dana) portal)
handle_submit-Answered_example =
    handle_submit-Answered exact_router taking (some dana) portal refl refl

taken_in : login taking (credentials portal.form) ≡ ok (some (obj end))
unfolding login
taken_in = refl
