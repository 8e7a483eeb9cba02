-- ===== src/Lists/Pages.antt =====
-- The menus of the list pages: MemberListPage.tsx, CoachListPage.tsx, ClassListPage.tsx, PlanListPage.tsx and
-- TenantListPage.tsx of frontend/src/features, and what the server makes of each action.
use dopacrm.Base.{
  Bool, true, false, not, ◌&&◌, ◌||◌, Option, none, List, [], ◌∷◌, ◌==◌, if◌then◌else◌,
}
use dopacrm.Auth.Types.{User, owner, super_admin, role_eq}
use dopacrm.Server.Statuses.{
  MemberStatus, CoachStatus, TenantStatus, member_status_eq, coach_status_eq, tenant_status_eq,
  is_owner, is_super_admin, when, can_freeze_member, can_unfreeze_member, can_cancel_member,
  can_freeze_coach, can_unfreeze_coach, can_cancel_coach,
}
use dopacrm.Ui.Table.{RowAction}
use dopacrm.Ui.Rows.{Click, navigates, asks, sends}

pub data Action : Type 0 where
  open_detail freeze unfreeze cancel deactivate activate suspend : Action

-- On every page the first item opens the page of the row, and a dialog asks before a cancellation.
abbrev pub click : Action → Click
click open_detail = navigates
click cancel = asks
click _ = sends

-- `canCancel` and `canMutate`
unfoldable pub can_mutate_rows : User → Bool
unfolding role_eq
can_mutate_rows user = user.role == owner || user.role == super_admin

abbrev pub item : {S : Type 0} → Action → (S → Bool) → RowAction S Action
item act hidden = record { act = act; hidden = hidden }

abbrev pub detail : {S : Type 0} → RowAction S Action
detail = item open_detail (λ _. false)

unfoldable pub member_actions : User → List (RowAction MemberStatus Action)
unfolding member_status_eq can_mutate_rows
member_actions user =
    detail
    ∷ item freeze (λ s. not (s == MemberStatus.active))
    ∷ item unfreeze (λ s. not (s == MemberStatus.frozen))
    ∷ item cancel (λ s. not (can_mutate_rows user) || s == MemberStatus.cancelled)
    ∷ []

unfoldable pub coach_actions : User → List (RowAction CoachStatus Action)
unfolding coach_status_eq can_mutate_rows
coach_actions user =
    if can_mutate_rows user
    then detail
      ∷ item freeze (λ s. not (s == CoachStatus.active))
      ∷ item unfreeze (λ s. not (s == CoachStatus.frozen))
      ∷ item cancel (λ s. s == CoachStatus.cancelled)
      ∷ []
    else []

-- Of the classes, and of the plans.
unfoldable pub catalogue_actions : User → List (RowAction Bool Action)
unfolding can_mutate_rows
catalogue_actions user =
    if can_mutate_rows user
    then detail ∷ item deactivate (λ s. not s) ∷ item activate (λ s. s) ∷ []
    else []

unfoldable pub tenant_actions : List (RowAction TenantStatus Action)
unfolding tenant_status_eq
tenant_actions =
    detail
    ∷ item activate (λ s. s == TenantStatus.active)
    ∷ item suspend (λ s. not (s == TenantStatus.active) && not (s == TenantStatus.trial))
    ∷ item cancel (λ s. s == TenantStatus.cancelled)
    ∷ []

-- What the server makes of the request behind an action: `MemberService.freeze`, `unfreeze` and `cancel`.
unfoldable pub perform_member : User → Action → MemberStatus → Option MemberStatus
unfolding is_owner
perform_member caller freeze s = when (can_freeze_member s) MemberStatus.frozen
perform_member caller unfreeze s = when (can_unfreeze_member s) MemberStatus.active
perform_member caller cancel s =
    if is_owner caller then when (can_cancel_member s) MemberStatus.cancelled else none
perform_member caller _ s = none

-- `CoachService.freeze_coach`, `unfreeze_coach` and `cancel_coach`
unfoldable pub perform_coach : User → Action → CoachStatus → Option CoachStatus
unfolding is_owner
perform_coach caller freeze s =
    if is_owner caller then when (can_freeze_coach s) CoachStatus.frozen else none
perform_coach caller unfreeze s =
    if is_owner caller then when (can_unfreeze_coach s) CoachStatus.active else none
perform_coach caller cancel s =
    if is_owner caller then when (can_cancel_coach s) CoachStatus.cancelled else none
perform_coach caller _ s = none

-- `deactivate` and `activate` of a class and of a plan
unfoldable pub perform_catalogue : User → Action → Bool → Option Bool
unfolding is_owner
perform_catalogue caller deactivate s = when (is_owner caller) false
perform_catalogue caller activate s = when (is_owner caller) true
perform_catalogue caller _ s = none

-- `activate_tenant`, `suspend_tenant` and `cancel_tenant`
unfoldable pub perform_tenant : User → Action → TenantStatus → Option TenantStatus
unfolding is_super_admin
perform_tenant caller activate s = when (is_super_admin caller) TenantStatus.active
perform_tenant caller suspend s = when (is_super_admin caller) TenantStatus.suspended
perform_tenant caller cancel s = when (is_super_admin caller) TenantStatus.cancelled
perform_tenant caller _ s = none
