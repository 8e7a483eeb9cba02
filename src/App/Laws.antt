-- ===== src/App/Laws.antt =====
-- Where an address leads under the route table of frontend/src/app/App.tsx, and which links
-- frontend/src/components/layout/Sidebar.tsx offers.
use dopacrm.Base.{
  ◌≡◌, refl, ◌⊎◌, inl, inr, true, false, String, some, List, [], ◌∷◌, ◌&◌, All, arith, ℕ, zero, suc,
  sym, get_elem?, includes, Option-cases, if◌then◌else◌,
}
use mathlib.Core.Bool
use mathlib.Core.Option.{some-injective}
use dopacrm.Auth.Types.{Role, super_admin, owner, User}
use dopacrm.Auth.Permissions.{
  Feature, dashboard as dashboard_feature, feature_eq, TenantFeatures, baseline, is_gated,
  empty_overrides, can_access,
}
use dopacrm.Auth.Session.{Session, tenant_features, is_authenticated}
use dopacrm.App.Routes.{
  Page, landing, login, dashboard, Guard, protected_route, dashboard_layout, require_feature, Route,
  gated, routes, Listed, is_dynamic, Router, redirect, show, element_view, render, open_at, visit,
}
use dopacrm.App.Sidebar.{NavItem, nav_items, is_visible}

-- What a guard stands for.
abbrev pub Holds : Session → Guard → Type 0
Holds s protected_route = is_authenticated s ≡ true
Holds s dashboard_layout = Unit
Holds s (require_feature f) = can_access s.user f empty_overrides (tenant_features s) ≡ true

abbrev landing_route : Route
landing_route = record { path = "/"; guards = []; element = landing }

abbrev login_route : Route
login_route = record { path = "/login"; guards = []; element = login }

abbrev dashboard_route : Route
dashboard_route = record {
  path = "/dashboard";
  guards = protected_route ∷ dashboard_layout ∷ [];
  element = dashboard;
}

-- The four ways in which an entry of the table can end, once the session has loaded.
abbrev Ends : Session → List Guard → Page → Type 0
Ends s guards element =
    let v = render s guards (element_view element) in
    ((v ≡ show element) × All (Holds s) guards)
    ⊎ ((v ≡ redirect "/login") × (is_authenticated s ≡ false))
    ⊎ ((v ≡ redirect "/dashboard") × (is_authenticated s ≡ true))
    ⊎ (v ≡ redirect "/")

pub All-Listed {ℓ} :
    (P : Route → Type ℓ) (rs : List Route) (r : Route) → All P rs → Listed r rs → P r
All-Listed P [] r _ l = elim l [ ]
All-Listed P (q ∷ rs) r (p, _) (inl e) = rw e p
All-Listed P (q ∷ rs) r (_, ps) (inr l) = All-Listed P rs r ps l

pub Listed-get_elem? : (rs : List Route) (i : ℕ) {r : Route} → get_elem? rs i ≡ some r → Listed r rs
Listed-get_elem? [] i e = cc
Listed-get_elem? (q ∷ rs) zero e = inl (sym (some-injective q _ e))
Listed-get_elem? (q ∷ rs) (suc i) e = inr (Listed-get_elem? rs i e)

baseline-dashboard : (role : Role) → includes (baseline role) dashboard_feature ≡ true
unfolding feature_eq
baseline-dashboard super_admin = refl
baseline-dashboard owner = refl
baseline-dashboard _ = refl

-- Everybody who is logged in sees the dashboard's link.
can_access-dashboard :
    (u : User) (flags : TenantFeatures)
    → can_access (some u) dashboard_feature empty_overrides flags ≡ true
unfolding can_access is_gated feature_eq
can_access-dashboard u flags = ground (arith, baseline-dashboard u.role)

module _ (s : Session) (loaded : s.is_loading ≡ false) where
  gated-Ends :
      (f : Feature) {p : Page}
      → element_view p ≡ show p
      → Ends s (protected_route ∷ dashboard_layout ∷ require_feature f ∷ []) p
  unfolding render
  gated-Ends f e = ground arith

  dashboard-Ends : Ends s dashboard_route.guards dashboard
  unfolding render
  dashboard-Ends = ground arith

  table-Ends : All (λ r. Ends s r.guards r.element) routes
  unfolding render
  table-Ends =
      inl (refl, tt)
      & inl (refl, tt)
      & dashboard-Ends
      & gated-Ends _ refl
      & gated-Ends _ refl
      & gated-Ends _ refl
      & gated-Ends _ refl
      & gated-Ends _ refl
      & gated-Ends _ refl
      & gated-Ends _ refl
      & gated-Ends _ refl
      & gated-Ends _ refl
      & gated-Ends _ refl
      & gated-Ends _ refl
      & gated-Ends _ refl
      & gated-Ends _ refl
      & gated-Ends _ refl
      & gated-Ends _ refl
      & inr (inr (inr refl))
      & tt

  module _ (router : Router) where
    pub open_at-login : open_at router s "/login" ≡ show login
    unfolding open_at render
    open_at-login = rw (router.choose_static login_route (inr (inl refl)) refl)

    open_at-landing : open_at router s "/" ≡ show landing
    unfolding open_at render
    open_at-landing = rw (router.choose_static landing_route (inl refl) refl)

    pub open_at-dashboard :
        is_authenticated s ≡ true → open_at router s "/dashboard" ≡ show dashboard
    unfolding open_at render
    open_at-dashboard h =
        rw (router.choose_static dashboard_route (inr (inr (inl refl))) refl) (ground arith)

    pub open_at-dashboard_out :
        is_authenticated s ≡ false → open_at router s "/dashboard" ≡ redirect "/login"
    unfolding open_at render
    open_at-dashboard_out h =
        rw (router.choose_static dashboard_route (inr (inr (inl refl))) refl) (ground arith)

    -- Where an address leads: a page of the table whose guards all hold.
    abbrev pub Settles : ℕ → String → Type 0
    Settles n path =
        (r : Route) × Listed r routes
        × (visit router n s path ≡ show r.element)
        × All (Holds s) r.guards

    settle :
        (path : String)
        → Ends s (router.choose path).guards (router.choose path).element
        → Settles 1 path
    unfolding visit
    settle path (inl (v, h)) =
        (router.choose path, router.choose-Listed path, rw (v, open_at, visit), h)
    settle path (inr (inl (v, _))) =
        (login_route, inr (inl refl), rw (v, open_at, visit) open_at-login, tt)
    settle path (inr (inr (inl (v, h)))) = (
      dashboard_route,
      inr (inr (inl refl)),
      rw (v, open_at, visit) (open_at-dashboard h),
      h & tt & tt,
    )
    settle path (inr (inr (inr v))) =
        (landing_route, inl refl, rw (v, open_at, visit) open_at-landing, tt)

    -- Once the session has loaded, every address leads to a page of the table in at most one redirect,
    -- and that page's guards all hold: the redirects never run in a circle.
    pub visit-Settles : (path : String) → Settles 1 path
    visit-Settles path = settle path (
        All-Listed (λ r. Ends s r.guards r.element) routes _ table-Ends (router.choose-Listed path))

    -- What a navigation item leads to: the page of the table at the item's address if the item is
    -- visible, and the dashboard if it is not.
    abbrev pub Leads : NavItem → Type 0
    Leads i =
        (r : Route) × Listed r routes
        × (r.path ≡ i.to)
        × (open_at router s i.to
            ≡ (if is_visible s i then show r.element else redirect "/dashboard"))

    gated-Leads :
        (f : Feature) (to : String) (p : Page)
        → element_view p ≡ show p
        → is_dynamic p ≡ false
        → Listed (gated f to p) routes
        → is_authenticated s ≡ true
        → Leads (record { to = to; feature = f })
    unfolding open_at render is_visible
    gated-Leads f to p e d l h =
        (gated f to p, l, refl, rw (router.choose_static (gated f to p) l d) (ground arith))

    dashboard-Leads :
        is_authenticated s ≡ true
        → Leads (record { to = "/dashboard"; feature = dashboard_feature })
    unfolding is_visible
    dashboard-Leads h = elim (Option-cases s.user) [
      | inl none_there ↦ absurd (Bool.false≢true (rw none_there at h))
      | inr (u, there) ↦ (
        dashboard_route,
        Listed-get_elem? routes 2 refl,
        refl,
        rw (open_at-dashboard h, there, can_access-dashboard u),
      )
    ]

    -- For a user who is logged in, each item of the navigation is visible exactly when its address
    -- shows its page: a visible link opens its page with no redirect, and typing the address of a
    -- hidden one leads to the dashboard.
    pub nav_items-Leads : is_authenticated s ≡ true → All Leads nav_items
    nav_items-Leads h =
        dashboard-Leads h
        & gated-Leads _ _ _ refl refl (Listed-get_elem? routes 3 refl) h
        & gated-Leads _ _ _ refl refl (Listed-get_elem? routes 5 refl) h
        & gated-Leads _ _ _ refl refl (Listed-get_elem? routes 11 refl) h
        & gated-Leads _ _ _ refl refl (Listed-get_elem? routes 7 refl) h
        & gated-Leads _ _ _ refl refl (Listed-get_elem? routes 9 refl) h
        & gated-Leads _ _ _ refl refl (Listed-get_elem? routes 12 refl) h
        & gated-Leads _ _ _ refl refl (Listed-get_elem? routes 14 refl) h
        & gated-Leads _ _ _ refl refl (Listed-get_elem? routes 15 refl) h
        & gated-Leads _ _ _ refl refl (Listed-get_elem? routes 17 refl) h
        & tt
