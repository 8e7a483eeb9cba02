-- ===== src/Server/Subscriptions.antt =====
-- What the server does with a request about the subscriptions of a member: the guards of
-- backend/app/domain/entities/subscription.py and the operations of backend/app/services/subscription_service.py, on
-- the rows of one member, with the limits of backend/app/api/v1/subscriptions/schemas.py and the checks of the table
-- (backend/app/adapters/storage/postgres/subscription) on frozen rows. Of a row only the status moves here. Which
-- plans may be subscribed to, the row that is inserted for a plan, and which dates are past are parameters.
use dopacrm.Base.{
  Bool, not, ◌&&◌, ◌||◌, String, Option, none, some, List, [], ◌∷◌, ◌==◌, string_eq, find, is_some,
  if◌then◌else◌, true,
}
use dopacrm.Base.Scan.{fits}
use dopacrm.Auth.Types.{owner, staff, super_admin, role_eq, User}
use dopacrm.Subscriptions.Types.{
  SubscriptionStatus, active, frozen, expired, cancelled, replaced, subscription_status_eq,
  Subscription, Request, create, freeze, unfreeze, renew, change_plan, cancel,
}

unfoldable pub can_freeze : SubscriptionStatus → Bool
unfolding subscription_status_eq
can_freeze status = status == active

unfoldable pub can_unfreeze : SubscriptionStatus → Bool
unfolding subscription_status_eq
can_unfreeze status = status == frozen

unfoldable pub can_renew : SubscriptionStatus → Bool
unfolding subscription_status_eq
can_renew status = status == active || status == expired

unfoldable pub can_change_plan : SubscriptionStatus → Bool
unfolding subscription_status_eq
can_change_plan status = status == active || status == frozen

unfoldable pub can_cancel : SubscriptionStatus → Bool
unfolding subscription_status_eq
can_cancel status = status == active || status == frozen || status == expired

-- `_require_staff`
unfoldable pub require_staff : User → Bool
unfolding role_eq
require_staff caller = caller.role == staff || caller.role == owner || caller.role == super_admin

-- `find_live_for_member`, on the rows of the member
unfoldable pub find_live : List Subscription → Option Subscription
unfolding subscription_status_eq
find_live rows = find (λ s. s.status == active || s.status == frozen) rows

unfoldable pub find_by_id : String → List Subscription → Option Subscription
unfolding string_eq
find_by_id id rows = find (λ s. s.id == id) rows

unfoldable pub set_status : String → SubscriptionStatus → List Subscription → List Subscription
unfolding string_eq
set_status id status [] = []
set_status id status (s ∷ ss) =
    (if s.id == id then record s { status = status } else s) ∷ set_status id status ss

-- `ck_subs_frozen_shape`, for a row that gets a new status: `cancel` and `mark_replaced_pending` leave `frozen_at` as it
-- is, which only a frozen row may have.
unfoldable pub keeps_shape : SubscriptionStatus → SubscriptionStatus → Bool
unfolding subscription_status_eq
keeps_shape old active = true
keeps_shape old frozen = true
keeps_shape old expired = true
keeps_shape old cancelled = not (old == frozen)
keeps_shape old replaced = not (old == frozen)

-- Checks and then moves one row: `_prepare_transition`, a guard, and the update, which the table may refuse.
unfoldable pub transition :
    User
    → (Subscription → Bool)
    → SubscriptionStatus
    → String
    → List Subscription
    → Option (List Subscription)
unfolding find_by_id keeps_shape
transition caller may status id rows = elim (find_by_id id rows) [
  | none ↦ none
  | some s ↦
      if require_staff caller && may s && keeps_shape s.status status
      then some (set_status id status rows)
      else none
]

-- `ck_subs_frozen_until_after_start`: a row is frozen from today on.
abbrev pub not_past : (String → Bool) → Option String → Bool
not_past is_past none = true
not_past is_past (some date) = not (is_past date)

-- What is asked of the fields of a request, whatever the rows are. That a date is well formed is left out.
unfoldable pub accepts : (String → Bool) → Request → Bool
accepts is_past (create r) = fits 200 r.payment_method_detail
accepts is_past (freeze _ until) = not_past is_past until
accepts is_past (unfreeze _) = true
accepts is_past (renew _ r) = fits 200 r.new_payment_method_detail
accepts is_past (change_plan _ _ _) = true
accepts is_past (cancel _ reason detail) = fits 64 reason && fits 500 detail

module _ (usable : String → Bool) (inserted : String → Subscription) where
  -- A new row, which is active.
  abbrev pub new_row : String → Subscription
  new_row plan = record (inserted plan) { status = active }

  abbrev pub insert_row : String → Option (List Subscription) → Option (List Subscription)
  insert_row plan none = none
  insert_row plan (some rows) = some (new_row plan ∷ rows)

  -- The rows after a request whose fields are accepted, `none` where the server refuses it.
  unfoldable pub answer : User → Request → List Subscription → Option (List Subscription)
  unfolding string_eq
  answer caller (create r) rows =
      if require_staff caller
        && is_some caller.tenant_id
        && usable r.plan_id
        && not (is_some (find_live rows))
      then some (new_row r.plan_id ∷ rows)
      else none
  answer caller (freeze id _) rows = transition caller (λ s. can_freeze s.status) frozen id rows
  answer caller (unfreeze id) rows = transition caller (λ s. can_unfreeze s.status) active id rows
  answer caller (renew id _) rows = transition caller (λ s. can_renew s.status) active id rows
  answer caller (change_plan id plan _) rows = insert_row plan (
      transition caller (λ s. can_change_plan s.status && not (s.plan_id == plan) && usable plan)
        replaced id rows)
  answer caller (cancel id _ _) rows =
      transition caller (λ s. can_cancel s.status) cancelled id rows

  -- The rows after the request, `none` where the server refuses it.
  unfoldable pub perform :
      (String → Bool) → User → Request → List Subscription → Option (List Subscription)
  unfolding accepts answer
  perform is_past caller r rows = if accepts is_past r then answer caller r rows else none
