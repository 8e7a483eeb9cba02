-- ===== src/App/Routes.antt =====
-- The route table of frontend/src/app/App.tsx, and the guards ProtectedRoute and RequireFeature. How
-- react-router picks an entry of the table is a parameter, `Router`.
use dopacrm.Base.{
  ◌≡◌, ◌⊎◌, Bool, true, false, not, String, List, [], ◌∷◌, if◌then◌else◌, ℕ, zero, suc,
}
use dopacrm.Auth.Permissions.{
  Feature, tenants, members, classes, plans, attendance, coaches, schedule, leads, payments,
  empty_overrides, can_access,
}
use dopacrm.Auth.Session.{Session, tenant_features, is_authenticated}

-- The elements of the table. `to_root` is `<Navigate to="/" replace />`.
pub data Page : Type 0 where
  landing login dashboard : Page
  tenant_list tenant_detail member_list member_detail : Page
  class_list class_detail plan_list plan_detail check_in : Page
  coach_list coach_detail week lead_list lead_detail payment_list : Page
  to_root : Page

-- The routes without a path, which wrap others.
pub data Guard : Type 0 where
  protected_route : Guard
  dashboard_layout : Guard
  require_feature : Feature → Guard

pub record Route : Type 0 where
  pub path : String
  -- from the outside in
  pub guards : List Guard
  pub element : Page

abbrev pub public : String → Page → Route
public path element = record { path = path; guards = []; element = element }

abbrev pub gated : Feature → String → Page → Route
gated feature path element = record {
  path = path;
  guards = protected_route ∷ dashboard_layout ∷ require_feature feature ∷ [];
  element = element;
}

abbrev pub routes : List Route
routes =
    public "/" landing
    ∷ public "/login" login
    ∷ record {
      path = "/dashboard";
      guards = protected_route ∷ dashboard_layout ∷ [];
      element = dashboard;
    }
    ∷ gated tenants "/tenants" tenant_list
    ∷ gated tenants "/tenants/:id" tenant_detail
    ∷ gated members "/members" member_list
    ∷ gated members "/members/:id" member_detail
    ∷ gated classes "/classes" class_list
    ∷ gated classes "/classes/:id" class_detail
    ∷ gated plans "/plans" plan_list
    ∷ gated plans "/plans/:id" plan_detail
    ∷ gated attendance "/check-in" check_in
    ∷ gated coaches "/coaches" coach_list
    ∷ gated coaches "/coaches/:id" coach_detail
    ∷ gated schedule "/schedule" week
    ∷ gated leads "/leads" lead_list
    ∷ gated leads "/leads/:id" lead_detail
    ∷ gated payments "/payments" payment_list
    ∷ public "*" to_root
    ∷ []

abbrev pub Listed : Route → List Route → Type 0
Listed r [] = ⊥
Listed r (q ∷ qs) = (r ≡ q) ⊎ Listed r qs

-- The entries whose path has a parameter or is the wildcard.
abbrev pub is_dynamic : Page → Bool
is_dynamic tenant_detail = true
is_dynamic member_detail = true
is_dynamic class_detail = true
is_dynamic plan_detail = true
is_dynamic coach_detail = true
is_dynamic lead_detail = true
is_dynamic to_root = true
is_dynamic _ = false

-- What the table relies on of `<Routes>`: the entry chosen for an address is one of the table, and an
-- address that is spelled like the path of an entry without parameters gets that entry.
pub record Router : Type 0 where
  pub choose : String → Route
  pub choose-Listed : (path : String) → Listed (choose path) routes
  pub choose_static :
      (r : Route) → Listed r routes → is_dynamic r.element ≡ false → choose r.path ≡ r

-- What is rendered: the loading text, another address, or a page.
pub data View : Type 0 where
  spinner : View
  redirect : String → View
  show : Page → View

abbrev pub element_view : Page → View
element_view to_root = redirect "/"
element_view p = show p

-- `RequireFeature`
unfoldable pub require : Session → Feature → View → View
require s feature outlet =
    if s.is_loading
    then spinner
    else if not (can_access s.user feature empty_overrides (tenant_features s))
    then redirect "/dashboard"
    else outlet

-- `ProtectedRoute`
unfoldable pub protect : Session → View → View
protect s outlet =
    if s.is_loading then spinner else if not (is_authenticated s) then redirect "/login" else outlet

-- A route's element inside the routes that wrap it, each of which renders its `<Outlet />`.
unfoldable pub render : Session → List Guard → View → View
unfolding require protect
render s [] view = view
render s (protected_route ∷ gs) view = protect s (render s gs view)
render s (dashboard_layout ∷ gs) view = render s gs view
render s (require_feature f ∷ gs) view = require s f (render s gs view)

module _ (router : Router) where
  -- What an address shows.
  unfoldable pub open_at : Session → String → View
  unfolding render
  open_at s path = let r = router.choose path in render s r.guards (element_view r.element)

  -- The same, with at most so many redirects followed.
  unfoldable pub visit : ℕ → Session → String → View
  unfolding open_at
  visit zero s path = open_at s path
  visit (suc n) s path = elim (open_at s path) [
    | redirect to ↦ visit n s to
    | spinner ↦ spinner
    | show p ↦ show p
  ]
