-- ===== src/App/Sidebar.antt =====
-- The navigation of frontend/src/components/layout/Sidebar.tsx. Labels and icons are left out.
use dopacrm.Base.{Bool, String, List, [], ◌∷◌, filter}
use dopacrm.Auth.Permissions.{
  Feature, dashboard, tenants, members, classes, plans, attendance, coaches, schedule, leads,
  payments, empty_overrides, can_access,
}
use dopacrm.Auth.Session.{Session, tenant_features}

pub record NavItem : Type 0 where
  pub to : String
  pub feature : Feature

abbrev item : String → Feature → NavItem
item to feature = record { to = to; feature = feature }

abbrev pub nav_items : List NavItem
nav_items =
    item "/dashboard" dashboard
    ∷ item "/tenants" tenants
    ∷ item "/members" members
    ∷ item "/check-in" attendance
    ∷ item "/classes" classes
    ∷ item "/plans" plans
    ∷ item "/coaches" coaches
    ∷ item "/schedule" schedule
    ∷ item "/leads" leads
    ∷ item "/payments" payments
    ∷ []

unfoldable pub is_visible : Session → NavItem → Bool
is_visible s i = can_access s.user i.feature empty_overrides (tenant_features s)

unfoldable pub visible_items : Session → List NavItem
unfolding is_visible
visible_items s = filter (is_visible s) nav_items
