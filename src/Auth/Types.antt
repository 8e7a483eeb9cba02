-- ===== src/Auth/Types.antt =====
-- The types of the auth feature (frontend/src/features/auth/types.ts), which
-- frontend/src/lib/api-schema.ts declares.
use dopacrm.Base.{Bool, String, Option, List, ◌∷◌, [], Eq}

pub data Role : Type 0 where
  super_admin owner staff sales coach : Role

unfoldable pub Role-discrete : Discrete Role
Role-discrete = hlevel

instance unfoldable pub role_eq : Eq Role
unfolding Role-discrete
role_eq = record { dec = Role-discrete }

-- `UserResponse`. The two time stamps, which the client never reads, are left out.
pub record User : Type 0 where
  pub id : String
  pub email : String
  pub first_name : Option String
  pub last_name : Option String
  pub phone : Option String
  pub oauth_provider : Option String
  pub is_active : Bool
  pub role : Role
  pub tenant_id : Option String
  pub tenant_features_enabled : List (String × Bool)

-- `ALL_GYM_ROLES`
abbrev pub all_gym_roles : List Role
all_gym_roles = owner ∷ staff ∷ sales ∷ coach ∷ []
