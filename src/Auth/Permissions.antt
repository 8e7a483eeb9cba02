-- ===== src/Auth/Permissions.antt =====
-- frontend/src/features/auth/permissions.ts: who may see which feature.
pub mod Laws
pub mod Bounds
use dopacrm.Base.{
  Bool, true, false, not, ◌&&◌, ◌||◌, String, Option, none, some, List, [], ◌∷◌, ◌++◌, Eq, ◌==◌,
  string_eq, lookup, get_or, filter, includes, if◌then◌else◌,
}
use dopacrm.Auth.Types.{Role, super_admin, owner, staff, sales, coach, role_eq, User}

pub data Feature : Type 0 where
  dashboard tenants members classes plans attendance : Feature
  coaches schedule leads payments reports settings : Feature

unfoldable pub Feature-discrete : Discrete Feature
Feature-discrete = hlevel

instance unfoldable pub feature_eq : Eq Feature
unfolding Feature-discrete
feature_eq = record { dec = Feature-discrete }

-- A feature as the key of an object.
abbrev pub feature_key : Feature → String
feature_key dashboard = "dashboard"
feature_key tenants = "tenants"
feature_key members = "members"
feature_key classes = "classes"
feature_key plans = "plans"
feature_key attendance = "attendance"
feature_key coaches = "coaches"
feature_key schedule = "schedule"
feature_key leads = "leads"
feature_key payments = "payments"
feature_key reports = "reports"
feature_key settings = "settings"

abbrev pub gated_features : List Feature
gated_features = coaches ∷ schedule ∷ leads ∷ []

abbrev pub baseline : Role → List Feature
baseline super_admin = dashboard ∷ tenants ∷ []
baseline owner =
    dashboard ∷ members ∷ classes ∷ plans ∷ attendance ∷ coaches ∷ schedule ∷ leads ∷ payments
    ∷ reports ∷ settings ∷ []
baseline staff = dashboard ∷ members ∷ classes ∷ attendance ∷ leads ∷ payments ∷ []
baseline sales = dashboard ∷ members ∷ classes ∷ leads ∷ payments ∷ []
baseline coach = dashboard ∷ classes ∷ attendance ∷ coaches ∷ schedule ∷ []

abbrev pub grantable_features : List Feature
grantable_features =
    members ∷ classes ∷ plans ∷ attendance ∷ coaches ∷ schedule ∷ leads ∷ payments ∷ reports ∷ []

pub record TenantOverrides : Type 0 where
  pub staff : List Feature
  pub sales : List Feature

abbrev pub empty_overrides : TenantOverrides
empty_overrides = record { staff = []; sales = [] }

-- `Record<string, boolean>`: a key that is missing reads as off.
abbrev pub TenantFeatures : Type 0
TenantFeatures = List (String × Bool)

unfoldable pub is_gated : Feature → Bool
is_gated feature = includes gated_features feature

-- The truth value of `tenantFeatures[feature]`.
unfoldable pub is_enabled : TenantFeatures → Feature → Bool
is_enabled flags feature = get_or (lookup (feature_key feature) flags) false

unfoldable pub can_access : Option User → Feature → TenantOverrides → TenantFeatures → Bool
can_access none feature overrides flags = false
can_access (some user) feature overrides flags =
    if is_gated feature && not (is_enabled flags feature)
    then false
    else if includes (baseline user.role) feature
    then true
    else if user.role == staff
    then includes overrides.staff feature
    else if user.role == sales
    then includes overrides.sales feature
    else false

-- The list that `accessibleFeatures` filters.
unfoldable pub raw_features : Role → TenantOverrides → List Feature
raw_features role overrides =
    if role == staff
    then baseline role ++ overrides.staff
    else if role == sales
    then baseline role ++ overrides.sales
    else baseline role

unfoldable pub accessible_features : Option User → TenantOverrides → TenantFeatures → List Feature
accessible_features none overrides flags = []
accessible_features (some user) overrides flags =
    filter (λ f. not (is_gated f) || is_enabled flags f) (raw_features user.role overrides)
