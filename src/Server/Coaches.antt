-- ===== src/Server/Coaches.antt =====
-- When the server attaches a coach to a class: the schema of backend/app/api/v1/coaches/schemas.py and
-- `assign_to_class` of backend/app/services/coach_service.py, with the rule of the table class_coaches that a coach has
-- a role once. That the coach and the class belong to the tenant is
-- asked of the database and left out.
use dopacrm.Base.{
  Bool, false, not, ◌&&◌, ◌||◌, String, List, [], ◌∷◌, leb, is_some, ◌==◌, string_eq,
}
use dopacrm.Base.Integers.{ℤ, pos, leb_ℤ}
use dopacrm.Base.Scan.{size}
use dopacrm.Auth.Types.{owner, super_admin, role_eq, User}
use dopacrm.Server.Schedule.{PayModel}
use dopacrm.Coaches.Weekdays.{valid_weekdays}

-- `AssignCoachRequest`, without the dates, which the client does not send
pub record AssignCoach : Type 0 where
  pub coach_id : String
  pub role : String
  pub is_primary : Bool
  pub pay_model : PayModel
  pub pay_amount_cents : ℤ
  pub weekdays : List String

-- What `AssignCoachRequest` wants of its fields.
abbrev pub valid_assign : AssignCoach → Bool
valid_assign r =
    leb 1 (size r.role)
    && leb (size r.role) 40
    && leb_ℤ (pos 0) r.pay_amount_cents
    && valid_weekdays r.weekdays

-- `_require_owner`
unfoldable pub require_owner : User → Bool
unfolding role_eq
require_owner caller = caller.role == owner || caller.role == super_admin

-- The columns of `class_coaches` that `ux_class_coaches_role` is about.
pub record Link : Type 0 where
  pub class_id : String
  pub coach_id : String
  pub role : String

-- `ux_class_coaches_role`, by which `create` raises `ClassCoachConflictError`: a coach has a role in a class once.
unfoldable pub has_role : List Link → String → String → String → Bool
unfolding string_eq
has_role [] class coach role = false
has_role (l ∷ ls) class coach role =
    l.class_id == class && l.coach_id == coach && l.role == role || has_role ls class coach role

-- `_require_owner`, then `_require_tenant`, and `create`, for a class and the rows of the table
abbrev pub assigns : User → List Link → String → AssignCoach → Bool
assigns caller links class r =
    valid_assign r
    && require_owner caller
    && is_some caller.tenant_id
    && not (has_role links class r.coach_id r.role)
