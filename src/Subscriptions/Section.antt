-- ===== src/Subscriptions/Section.antt =====
-- MemberSubscriptionSection.tsx of frontend/src/features/subscriptions, and `useCurrentSubscriptionForMember` of
-- its hooks.ts: what the section shows of a member's subscriptions, and which buttons it has.
use dopacrm.Base.{
  Bool, true, false, not, ◌&&◌, ◌||◌, String, Option, none, some, List, ◌==◌, string_eq, option_eq,
  find, filter, is_some, get_elem?,
}
use dopacrm.Auth.Types.{owner, staff, super_admin, role_eq, User}
use dopacrm.Subscriptions.Types.{
  SubscriptionStatus, active, frozen, expired, cancelled, replaced, subscription_status_eq,
  Subscription,
}

-- `canMutate`
unfoldable pub can_mutate : Option User → Bool
unfolding role_eq
can_mutate none = false
can_mutate (some user) = user.role == staff || user.role == owner || user.role == super_admin

unfoldable pub is_live : Subscription → Bool
unfolding subscription_status_eq
is_live s = s.status == active || s.status == frozen

-- `useCurrentSubscriptionForMember`, for the subscriptions that the server lists of the member
abbrev pub current_of : List Subscription → Option Subscription
current_of all = find is_live all

-- `a ?? b`
abbrev or_else : Option Subscription → Option Subscription → Option Subscription
or_else (some s) d = some s
or_else none d = d

-- `focusSub`
abbrev pub focus_sub : Option Subscription → List Subscription → Option Subscription
focus_sub current history = or_else current (get_elem? history 0)

abbrev is_other : Option Subscription → Subscription → Bool
is_other none s = true
is_other (some current) s = not (s.id == current.id)

-- `pastSubs`
abbrev pub past_subs : Option Subscription → List Subscription → List Subscription
past_subs current history = filter (is_other current) history

-- The date at which a past subscription ended.
abbrev pub ended_at : Subscription → Option String
ended_at s = elim s.cancelled_at [
  | some at ↦ some at
  | none ↦ elim s.replaced_at [ some at ↦ some at | none ↦ s.expired_at ]
]

-- The buttons of the section: the first one where there is no current subscription, the others on its card.
pub data Button : Type 0 where
  enroll freeze unfreeze renew change_plan cancel : Button

-- `CurrentSubCard`
unfoldable pub card_shows : Bool → SubscriptionStatus → Button → Bool
unfolding subscription_status_eq
card_shows can_mutate status enroll = false
card_shows can_mutate status freeze = can_mutate && status == active
card_shows can_mutate status unfreeze = can_mutate && status == frozen
card_shows can_mutate status renew = can_mutate && (status == active || status == expired)
card_shows can_mutate status change_plan = can_mutate && (status == active || status == frozen)
card_shows can_mutate status cancel =
    can_mutate && (not (status == cancelled) && not (status == replaced))

abbrev enroll_shows : Bool → Button → Bool
enroll_shows can_mutate enroll = can_mutate
enroll_shows can_mutate _ = false

-- Whether the section shows a button.
unfoldable pub section_shows : Option User → Option Subscription → Button → Bool
unfolding can_mutate card_shows
section_shows user none b = enroll_shows (can_mutate user) b
section_shows user (some current) b = card_shows (can_mutate user) current.status b

-- `dialog`
pub data Dialog : Type 0 where
  enroll freeze renew change_plan cancel : Dialog

-- What a press of a button sets `dialog` to; `unfreeze` has no dialog.
abbrev pub dialog_of : Button → Option Dialog
dialog_of enroll = some enroll
dialog_of freeze = some freeze
dialog_of unfreeze = none
dialog_of renew = some renew
dialog_of change_plan = some change_plan
dialog_of cancel = some cancel

-- Whether the dialog is shown: all but the first need a current subscription.
abbrev pub dialog_shown : Dialog → Option Subscription → Bool
dialog_shown enroll current = true
dialog_shown _ current = is_some current
