-- ===== src/Subscriptions/Page.antt =====
-- What the section of a member sends: a button that it shows, and the dialog that the button opens.
use dopacrm.Base.{◌≡◌, true, String, Option, some, List, map, includes, string_eq}
use dopacrm.Auth.Types.{User}
use dopacrm.Subscriptions.Types.{Subscription, Request}
use dopacrm.Subscriptions.Section.{
  current_of, section_shows, enroll, freeze, unfreeze, renew, change_plan, cancel,
}
use dopacrm.Subscriptions.Dialogs.{
  Enroll, submit_enroll, Renew, submit_renew, submit_freeze, PlanOption, candidate_plans,
  submit_change_plan, submit_cancel,
}

abbrev pub plan_ids : List PlanOption → List String
plan_ids plans = map (λ (p : PlanOption). p.id) plans

-- For a user, a member, the plans that the dialogs list, and the member's subscriptions as they were last listed.
pub data Sends (user : Option User) (member : String) (plans : List PlanOption)
    (subs : List Subscription) : Request → Type 0 where
  enrolls :
      (d : Enroll) (r : Request)
      → section_shows user (current_of subs) enroll ≡ true
      → includes (plan_ids plans) d.plan_id ≡ true
      → submit_enroll member d ≡ some r
      → Sends user member plans subs r
  freezes :
      (c : Subscription) (frozen_until : String)
      → current_of subs ≡ some c
      → section_shows user (some c) freeze ≡ true
      → Sends user member plans subs (submit_freeze c frozen_until)
  unfreezes :
      (c : Subscription)
      → current_of subs ≡ some c
      → section_shows user (some c) unfreeze ≡ true
      → Sends user member plans subs (Request.unfreeze c.id)
  renews :
      (c : Subscription) (d : Renew)
      → current_of subs ≡ some c
      → section_shows user (some c) renew ≡ true
      → Sends user member plans subs (submit_renew c d)
  changes :
      (c : Subscription) (plan effective_date : String) (r : Request)
      → current_of subs ≡ some c
      → section_shows user (some c) change_plan ≡ true
      → includes (plan_ids (candidate_plans plans c)) plan ≡ true
      → submit_change_plan c plan effective_date ≡ some r
      → Sends user member plans subs r
  cancels :
      (c : Subscription) (reason detail : String)
      → current_of subs ≡ some c
      → section_shows user (some c) cancel ≡ true
      → Sends user member plans subs (submit_cancel c reason detail)
