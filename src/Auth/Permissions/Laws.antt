-- ===== src/Auth/Permissions/Laws.antt =====
-- The two ways of asking for permission agree.
use dopacrm.Base.{
  ◌≡◌, refl, Bool, false, not, ◌||◌, Option, none, some, ◌==◌, includes, includes-append,
  includes-filter, arith, if◌then◌else◌,
}
use dopacrm.Auth.Types.{Role, super_admin, owner, staff, sales, coach, role_eq, User}
use dopacrm.Auth.Permissions.{
  Feature, feature_eq, TenantOverrides, TenantFeatures, baseline, is_gated, is_enabled, can_access,
  raw_features, accessible_features,
}

-- What `can_access` asks of a role, before the flags of the gym.
abbrev pub is_granted : Role → TenantOverrides → Feature → Bool
is_granted role overrides feature =
    includes (baseline role) feature
    || (if role == staff
        then includes overrides.staff feature
        else if role == sales
        then includes overrides.sales feature
        else false)

includes-raw_features :
    (role : Role) (overrides : TenantOverrides) (feature : Feature)
    → includes (raw_features role overrides) feature ≡ is_granted role overrides feature
unfolding raw_features role_eq
includes-raw_features super_admin o f = ground arith
includes-raw_features owner o f = ground arith
includes-raw_features staff o f = includes-append (baseline staff) o.staff f
includes-raw_features sales o f = includes-append (baseline sales) o.sales f
includes-raw_features coach o f = ground arith

-- A user has access to a feature exactly when the list of accessible features holds it, for every
-- role, all overrides and all flags; a visitor has no access, and an empty list.
pub includes-accessible_features :
    (user : Option User) (overrides : TenantOverrides) (flags : TenantFeatures) (feature : Feature)
    → includes (accessible_features user overrides flags) feature
      ≡ can_access user feature overrides flags
unfolding can_access accessible_features
includes-accessible_features none overrides flags feature = refl
includes-accessible_features (some user) overrides flags feature = ground (
  arith,
  includes-filter (λ (f : Feature). not (is_gated f) || is_enabled flags f)
      (raw_features user.role overrides) feature,
  includes-raw_features user.role overrides feature,
)
