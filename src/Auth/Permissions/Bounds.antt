-- ===== src/Auth/Permissions/Bounds.antt =====
-- How far grants and flags reach in frontend/src/features/auth/permissions.ts.
use dopacrm.Base.{
  ◌≡◌, ◌≢◌, refl, true, false, Option, none, some, List, includes, arith, ◌⊎◌, inl, inr,
}
use dopacrm.Auth.Types.{Role, super_admin, owner, staff, sales, role_eq, User, Role-discrete}
use dopacrm.Auth.Permissions.{
  Feature, tenants, settings, feature_eq, TenantOverrides, TenantFeatures, empty_overrides,
  baseline, grantable_features, is_enabled, can_access,
}

-- `Includes xs ys`: what the first list includes, the second includes too.
abbrev pub Includes : List Feature → List Feature → Type 0
Includes xs ys = (f : Feature) → includes xs f ≡ true → includes ys f ≡ true

-- Turning flags on and granting more never takes access away.
pub can_access_mono :
    (user : Option User) (feature : Feature) (few more : TenantOverrides)
    (before after : TenantFeatures)
    → Includes few.staff more.staff
    → Includes few.sales more.sales
    → ((f : Feature) → is_enabled before f ≡ true → is_enabled after f ≡ true)
    → can_access user feature few before ≡ true
    → can_access user feature more after ≡ true
unfolding can_access
can_access_mono none feature few more before after hs hl hf h = cc
can_access_mono (some user) feature few more before after hs hl hf h =
    ground (arith, hs feature, hl feature, hf feature)

-- Overrides change nothing for anyone but staff and sales.
pub can_access_fixed :
    (user : User) (feature : Feature) (overrides : TenantOverrides) (flags : TenantFeatures)
    → user.role ≢ staff
    → user.role ≢ sales
    → can_access (some user) feature overrides flags
      ≡ can_access (some user) feature empty_overrides flags
unfolding can_access
can_access_fixed user feature overrides flags p q = ground arith

settings_not_grantable : includes grantable_features settings ≡ false
unfolding feature_eq
settings_not_grantable = refl

tenants_not_grantable : includes grantable_features tenants ≡ false
unfolding feature_eq
tenants_not_grantable = refl

baseline-settings : (role : Role) → role ≢ owner → includes (baseline role) settings ≡ false
unfolding feature_eq
baseline-settings super_admin h = refl
baseline-settings owner h = absurd (h refl)
baseline-settings _ h = refl

baseline-tenants : (role : Role) → role ≢ super_admin → includes (baseline role) tenants ≡ false
unfolding feature_eq
baseline-tenants super_admin h = absurd (h refl)
baseline-tenants owner h = refl
baseline-tenants _ h = refl

module _ (user : User) (overrides : TenantOverrides) (flags : TenantFeatures)
    (staff_grants : Includes overrides.staff grantable_features)
    (sales_grants : Includes overrides.sales grantable_features) where
  -- As long as owners grant grantable features only, the settings are for owners alone and the list
  -- of gyms is for the platform's administrators alone.
  pub can_access_reserved :
      ((user.role ≡ owner) ⊎ (can_access (some user) settings overrides flags ≡ false))
      × ((user.role ≡ super_admin) ⊎ (can_access (some user) tenants overrides flags ≡ false))
  unfolding can_access
  can_access_reserved = (
    elim (Role-discrete user.role owner) [
      | yes is ↦ inl is
      | no h ↦ inr (
          ground (
            arith,
            baseline-settings user.role h,
            staff_grants settings,
            sales_grants settings,
            settings_not_grantable,
          ))
    ],
    elim (Role-discrete user.role super_admin) [
      | yes is ↦ inl is
      | no h ↦ inr (
          ground (
            arith,
            baseline-tenants user.role h,
            staff_grants tenants,
            sales_grants tenants,
            tenants_not_grantable,
          ))
    ],
  )
