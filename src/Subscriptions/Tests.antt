-- ===== src/Subscriptions/Tests.antt =====
-- Runs of the section of a member's subscriptions, and the theorems on them.
use dopacrm.Base.{
  ◌≡◌, refl, ◌≤◌, Bool, true, false, String, none, some, List, [], ◌∷◌, arith, string_eq, includes,
  ◌==◌,
}
use dopacrm.Base.Integers.{pos}
use dopacrm.Auth.Types.{owner, User, role_eq}
use dopacrm.Subscriptions.Types.{
  active, expired, frozen, cash, subscription_status_eq, Subscription,
}
use dopacrm.Subscriptions.Section.{can_mutate, is_live, section_shows, card_shows}
use dopacrm.Subscriptions.Dialogs.{PlanOption, submit_freeze, submit_cancel}
use dopacrm.Subscriptions.Page.{Sends, freezes}
use dopacrm.Subscriptions.OneLive.{ids, AreDistinct, live_count}
use dopacrm.Server.Subscriptions.{
  perform, answer, accepts, transition, keeps_shape, find_by_id, require_staff, can_cancel,
}
use dopacrm.Base.Scan.{or_null}
use dopacrm.Subscriptions.Laws.{renew-Active}
use dopacrm.Subscriptions.Taken.{Answered, Sends-Answered}

abbrev boss : User
boss = record {
  id = "u1";
  email = "boss@gym";
  first_name = none;
  last_name = none;
  phone = none;
  oauth_provider = none;
  is_active = true;
  role = owner;
  tenant_id = some "t1";
  tenant_features_enabled = [];
}

abbrev row : String → Subscription
row id = record {
  id = id;
  plan_id = "monthly";
  status = active;
  price_cents = pos 45000;
  currency = "ILS";
  payment_method = cash;
  payment_method_detail = none;
  started_at = "2026-01-01";
  expires_at = none;
  frozen_until = none;
  expired_at = none;
  cancelled_at = none;
  replaced_at = none;
}

abbrev rows : List Subscription
rows = row "s2" ∷ record (row "s1") { status = expired } ∷ []

-- The id of a new row.
abbrev inserted : String → Subscription
inserted plan = row "s3"

abbrev plans : List PlanOption
plans = record { id = "yearly" } ∷ []

abbrev usable : String → Bool
usable _ = true

renew-Active_example : (row "s2").status ≡ active
unfolding section_shows card_shows can_mutate is_live subscription_status_eq role_eq
renew-Active_example = renew-Active (some boss) rows (row "s2") refl refl

freeze_sent : Sends (some boss) "m1" plans rows (submit_freeze (row "s2") "2026-02-01")
unfolding section_shows card_shows can_mutate is_live subscription_status_eq role_eq
freeze_sent = freezes (row "s2") "2026-02-01" refl refl

one_live : live_count rows ≤ 1
unfolding live_count is_live subscription_status_eq
one_live = omega arith

distinct : AreDistinct rows
unfolding string_eq
distinct = (refl, (refl, tt))

fresh : (plan : String) → includes (ids rows) (inserted plan).id ≡ false
unfolding string_eq
fresh plan = refl

-- The dates before 2026.
abbrev is_past : String → Bool
is_past date = date == "2025-12-31"

-- A freeze to a day that is not past.
freeze_accepted : accepts is_past (submit_freeze (row "s2") "2026-02-01") ≡ true
unfolding accepts string_eq or_null
freeze_accepted = refl

Sends-Answered_example :
    Answered usable inserted boss is_past rows (submit_freeze (row "s2") "2026-02-01")
Sends-Answered_example =
    Sends-Answered usable plans (refl, tt) is_past inserted boss rows one_live distinct fresh refl
      freeze_accepted freeze_sent

-- A frozen subscription that the section cancels: the table refuses the update.
frozen_cancelled :
    perform usable inserted is_past boss
      (submit_cancel (row "s2") "injury" "")
      (record (row "s2") { status = frozen } ∷ [])
    ≡ none
unfolding perform answer accepts transition keeps_shape require_staff can_cancel string_eq or_null
    find_by_id subscription_status_eq
frozen_cancelled = refl
