-- ===== src/Subscriptions/Laws.antt =====
-- The buttons of the section against the guards of the server, and the parts of what it sends.
use dopacrm.Base.{
  ◌≡◌, refl, sym, ap, ◌∙◌, Bool, true, false, not, ◌&&◌, ◌||◌, String, Option, none, some, List,
  ◌==◌, string_eq, Bool-cases, inl, inr, arith,
}
use mathlib.Core.Option.{some-injective, none-ne-some}
use mathlib.Core.Bool.{false≢true}
use dopacrm.Base.Scan.{or_null}
use dopacrm.Auth.Types.{User}
use dopacrm.Subscriptions.Types.{
  SubscriptionStatus, active, frozen, expired, cancelled, replaced, subscription_status_eq,
  Subscription, CreateRequest, Request,
}
use dopacrm.Subscriptions.Section.{
  can_mutate, is_live, current_of, card_shows, section_shows, Button, enroll, freeze, unfreeze,
  renew, change_plan, cancel,
}
use dopacrm.Subscriptions.Dialogs.{Enroll, submit_enroll, submit_change_plan}
use dopacrm.Subscriptions.OneLive.{
  current_of-live, AreDistinct, is_live_status, find_by_id-current_of,
}
use dopacrm.Server.Subscriptions.{
  can_freeze, can_unfreeze, can_renew, can_change_plan, can_cancel, require_staff, find_live,
  set_status, keeps_shape, transition,
}

-- What the server asks of the status of a subscription for the request behind a button of its card.
unfoldable pub server_takes : SubscriptionStatus → Button → Bool
unfolding can_freeze can_unfreeze can_renew can_change_plan can_cancel
server_takes status enroll = false
server_takes status freeze = can_freeze status
server_takes status unfreeze = can_unfreeze status
server_takes status renew = can_renew status
server_takes status change_plan = can_change_plan status
server_takes status cancel = can_cancel status

cancel-can_cancel :
    (status : SubscriptionStatus)
    → (not (status == cancelled) && not (status == replaced)) ≡ can_cancel status
unfolding can_cancel subscription_status_eq
cancel-can_cancel active = refl
cancel-can_cancel frozen = refl
cancel-can_cancel expired = refl
cancel-can_cancel cancelled = refl
cancel-can_cancel replaced = refl

-- The card of a subscription shows a button exactly where the user may change subscriptions and the server takes
-- the request behind the button for a subscription of this status.
pub card_shows-server_takes :
    (may : Bool) (status : SubscriptionStatus) (b : Button)
    → card_shows may status b ≡ (may && server_takes status b)
unfolding card_shows server_takes can_freeze can_unfreeze can_renew can_change_plan
card_shows-server_takes may status enroll = ground arith
card_shows-server_takes may status freeze = refl
card_shows-server_takes may status unfreeze = refl
card_shows-server_takes may status renew = refl
card_shows-server_takes may status change_plan = refl
card_shows-server_takes may status cancel = ap (λ c. may && c) (cancel-can_cancel status)

can_mutate-require_staff : (user : User) → can_mutate (some user) ≡ require_staff user
unfolding can_mutate require_staff
can_mutate-require_staff user = refl

live-renewed :
    (status : SubscriptionStatus)
    → is_live_status status ≡ true
    → (status == active || status == expired) ≡ true
    → status ≡ active
unfolding is_live_status subscription_status_eq
live-renewed active live shown = refl
live-renewed frozen live shown = absurd (false≢true shown)
live-renewed expired live shown = absurd (false≢true live)
live-renewed cancelled live shown = absurd (false≢true live)
live-renewed replaced live shown = absurd (false≢true live)

-- Whatever subscriptions a member has, one that the section offers to renew is active: an expired one is never
-- offered.
pub renew-Active :
    (user : Option User) (subs : List Subscription) (c : Subscription)
    → current_of subs ≡ some c
    → section_shows user (some c) renew ≡ true
    → c.status ≡ active
unfolding section_shows card_shows is_live is_live_status
renew-Active user subs c e shown = live-renewed c.status (current_of-live subs c e).0 (ground arith)

pub shows-Taken :
    (user : User) (c : Subscription) (b : Button)
    → section_shows (some user) (some c) b ≡ true
    → (require_staff user ≡ true) × (server_takes c.status b ≡ true)
unfolding section_shows
shows-Taken user c b shown = ground (
  arith,
  sym shown ∙ card_shows-server_takes (can_mutate (some user)) c.status b,
  can_mutate-require_staff user,
)

pub enroll-Free :
    (user : User) (current : Option Subscription)
    → section_shows (some user) current enroll ≡ true
    → (require_staff user ≡ true) × (current ≡ none)
unfolding section_shows card_shows can_mutate require_staff
enroll-Free user none shown = (shown, refl)
enroll-Free user (some c) shown = absurd (false≢true shown)

pub find_live-current_of : (rows : List Subscription) → find_live rows ≡ current_of rows
unfolding find_live is_live
find_live-current_of rows = refl

pub submit_enroll-create :
    (member : String) (d : Enroll) (r : Request)
    → submit_enroll member d ≡ some r
    → (q : CreateRequest) × (Request.create q ≡ r) × (q.plan_id ≡ d.plan_id)
unfolding submit_enroll
submit_enroll-create member d r e = elim (Bool-cases (d.plan_id == "")) [
  | inl empty ↦ absurd (none-ne-some r (rw empty at e))
  | inr named ↦ (_, some-injective _ r (rw named at e), refl)
]

pub submit_change_plan-change :
    (c : Subscription) (plan date : String) (r : Request)
    → submit_change_plan c plan date ≡ some r
    → Request.change_plan c.id plan (or_null date) ≡ r
unfolding submit_change_plan
submit_change_plan-change c plan date r e = elim (Bool-cases (plan == "")) [
  | inl empty ↦ absurd (none-ne-some r (rw empty at e))
  | inr named ↦ some-injective _ r (rw named at e)
]

pub transition-current_of :
    (user : User) (may : Subscription → Bool) (status : SubscriptionStatus)
    (rows : List Subscription) (c : Subscription)
    → current_of rows ≡ some c
    → AreDistinct rows
    → require_staff user ≡ true
    → may c ≡ true
    → keeps_shape c.status status ≡ true
    → transition user may status c.id rows ≡ some (set_status c.id status rows)
unfolding transition
transition-current_of user may status rows c e d staff ok kept =
    rw (transition, find_by_id-current_of rows c e d, staff, ok, kept) refl
