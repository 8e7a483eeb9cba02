-- ===== src/Auth/Tests.antt =====
-- The permissions and the session at concrete users and orders of events.
use dopacrm.Base.{◌≡◌, refl, true, false, none, some, [], ◌∷◌, includes, arith, string_eq, ◌⊎◌, ◌≤◌}
use dopacrm.Auth.Types.{Role, owner, staff, sales, super_admin, role_eq, User}
use dopacrm.Auth.Permissions.{
  members, plans, schedule, settings, tenants, feature_eq, TenantOverrides, TenantFeatures,
  empty_overrides, is_gated, is_enabled, can_access, accessible_features,
}
use dopacrm.Auth.Permissions.Laws.{includes-accessible_features}
use dopacrm.Auth.Permissions.Bounds.{can_access_reserved}
use dopacrm.Auth.Session.{Session, mounted, leave, logout_call, here, next, Idle}
use dopacrm.Auth.Session.Laws.{Reach-loading, Idle-stale_user}

abbrev user_of : Role → User
user_of role = record {
  id = "u1";
  email = "u1@gym.example";
  first_name = none;
  last_name = none;
  phone = none;
  oauth_provider = none;
  is_active = true;
  role = role;
  tenant_id = some "t1";
  tenant_features_enabled = [];
}

abbrev plan_grant : TenantOverrides
plan_grant = record { staff = plans ∷ schedule ∷ []; sales = [] }

abbrev flags : TenantFeatures
flags = ("schedule", true) ∷ ("leads", false) ∷ []

granted :
    (can_access (some (user_of staff)) plans plan_grant flags ≡ true)
    × (can_access (some (user_of sales)) plans plan_grant flags ≡ false)
    × (can_access (some (user_of staff)) schedule plan_grant [] ≡ false)
unfolding can_access is_gated is_enabled feature_eq role_eq string_eq
granted = (refl, refl, refl)

includes-accessible_features_example :
    includes (accessible_features (some (user_of staff)) plan_grant flags) plans
    ≡ can_access (some (user_of staff)) plans plan_grant flags
includes-accessible_features_example =
    includes-accessible_features (some (user_of staff)) plan_grant flags plans

staff_members : can_access (some (user_of staff)) members empty_overrides [] ≡ true
unfolding can_access is_gated is_enabled feature_eq role_eq string_eq
staff_members = refl

can_access_reserved_example :
    ((staff ≡ owner) ⊎ (can_access (some (user_of staff)) settings plan_grant flags ≡ false))
    × ((staff ≡ super_admin) ⊎ (can_access (some (user_of staff)) tenants plan_grant flags ≡ false))
unfolding feature_eq
can_access_reserved_example =
    can_access_reserved (user_of staff) plan_grant flags (λ f h. ground arith) (λ f h. cc)

-- A click on logout before the first `getMe` is back.
Reach-loading_example : (1 ≤ (leave mounted).fetches) × ((leave mounted).user ≡ none)
unfolding leave
Reach-loading_example = Reach-loading (next here (logout_call mounted)) refl

abbrev signed_out : Session
signed_out = record {
  user = none;
  is_loading = false;
  fetches = 0;
  logouts = 1;
  location = some "/login";
}

abbrev racing : Session
racing = record {
  user = some (user_of owner);
  is_loading = false;
  fetches = 1;
  logouts = 1;
  location = none;
}

Idle-stale_user_example :
    (t : Session) × Idle racing t × (t.user ≡ some (user_of owner)) × (t.location ≡ some "/login")
Idle-stale_user_example = Idle-stale_user racing (user_of owner) 0 0 refl refl
