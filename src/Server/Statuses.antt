-- ===== src/Server/Statuses.antt =====
-- What the server does to the status of a row: backend/app/domain/entities/{member,coach,tenant}.py, and the operations
-- of member_service.py, coach_service.py, gym_class_service.py, membership_plan_service.py and tenant_service.py of
-- backend/app/services. The rows are those of the caller's gym; dates are left out. A class and a plan are active or
-- not.
use dopacrm.Base.{Bool, true, false, ◌||◌, Option, none, some, Eq, ◌==◌, if◌then◌else◌}
use dopacrm.Auth.Types.{User, owner, super_admin, role_eq}

pub data MemberStatus : Type 0 where
  active frozen expired cancelled : MemberStatus

pub data CoachStatus : Type 0 where
  active frozen cancelled : CoachStatus

pub data TenantStatus : Type 0 where
  trial active suspended cancelled : TenantStatus

unfoldable pub MemberStatus-discrete : Discrete MemberStatus
MemberStatus-discrete = hlevel

unfoldable pub CoachStatus-discrete : Discrete CoachStatus
CoachStatus-discrete = hlevel

unfoldable pub TenantStatus-discrete : Discrete TenantStatus
TenantStatus-discrete = hlevel

instance unfoldable pub member_status_eq : Eq MemberStatus
unfolding MemberStatus-discrete
member_status_eq = record { dec = MemberStatus-discrete }

instance unfoldable pub coach_status_eq : Eq CoachStatus
unfolding CoachStatus-discrete
coach_status_eq = record { dec = CoachStatus-discrete }

instance unfoldable pub tenant_status_eq : Eq TenantStatus
unfolding TenantStatus-discrete
tenant_status_eq = record { dec = TenantStatus-discrete }

-- `_require_owner` of the classes, plans and coaches, `_require_owner_or_super_admin` of the members
unfoldable pub is_owner : User → Bool
unfolding role_eq
is_owner caller = caller.role == owner || caller.role == super_admin

-- `_require_super_admin`
unfoldable pub is_super_admin : User → Bool
unfolding role_eq
is_super_admin caller = caller.role == super_admin

abbrev pub when : {S : Type 0} → Bool → S → Option S
when may to = if may then some to else none

-- `can_freeze`, `can_unfreeze` and `can_cancel` of a member
abbrev pub can_freeze_member : MemberStatus → Bool
can_freeze_member active = true
can_freeze_member _ = false

abbrev pub can_unfreeze_member : MemberStatus → Bool
can_unfreeze_member frozen = true
can_unfreeze_member _ = false

abbrev pub can_cancel_member : MemberStatus → Bool
can_cancel_member cancelled = false
can_cancel_member _ = true

-- of a coach
abbrev pub can_freeze_coach : CoachStatus → Bool
can_freeze_coach active = true
can_freeze_coach _ = false

abbrev pub can_unfreeze_coach : CoachStatus → Bool
can_unfreeze_coach frozen = true
can_unfreeze_coach _ = false

abbrev pub can_cancel_coach : CoachStatus → Bool
can_cancel_coach cancelled = false
can_cancel_coach _ = true
