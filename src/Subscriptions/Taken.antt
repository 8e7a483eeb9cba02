-- ===== src/Subscriptions/Taken.antt =====
-- What the server makes of the requests of the section of a member, and that a member has one live subscription at most.
use dopacrm.Base.{
  ◌≡◌, refl, sym, ap, ◌∙◌, Bool, true, false, not, String, none, some, List, ◌≤◌, includes, filter,
  ◌⊎◌, All, All-filter, All-includes, Bool-cases, inl, inr, is_some, ◌==◌, string_eq, ==_iff, arith,
}
use mathlib.Core.Path.{subst}
use mathlib.Core.Bool.{false≢true}
use dopacrm.Base.Scan.{or_null}
use dopacrm.Auth.Types.{User}
use dopacrm.Subscriptions.Types.{active, frozen, subscription_status_eq, Subscription, Request}
use dopacrm.Subscriptions.Section.{current_of, freeze, unfreeze, renew, change_plan, cancel}
use dopacrm.Subscriptions.Dialogs.{PlanOption, candidate_plans, submit_renew}
use dopacrm.Subscriptions.Page.{
  plan_ids, Sends, enrolls, freezes, unfreezes, renews, changes, cancels,
}
use dopacrm.Subscriptions.OneLive.{ids, AreDistinct, live_count}
use dopacrm.Subscriptions.Laws.{
  server_takes, shows-Taken, enroll-Free, submit_enroll-create, submit_change_plan-change,
}
use dopacrm.Server.Subscriptions.{
  can_freeze, can_unfreeze, can_renew, keeps_shape, accepts, answer, perform,
}
use dopacrm.Subscriptions.Answers.{
  is_stuck, Answers, moved-Taken, enrolls-Taken, changes-Answers, cancels-Answers,
}

module _ (usable : String → Bool) (inserted : String → Subscription) (user : User) where
  -- The server fails on a request to end a frozen subscription. It performs any other, and afterwards at most one of
  -- the rows is live and no two have the same id.
  abbrev pub Answered : (String → Bool) → List Subscription → Request → Type 0
  Answered is_past rows r =
      ((is_stuck rows r ≡ true) × (perform usable inserted is_past user r rows ≡ none))
      ⊎ ((is_stuck rows r ≡ false)
          × ((after : List Subscription) × (perform usable inserted is_past user r rows
                ≡ some after)
              × (live_count after ≤ 1)
              × AreDistinct after))

turned : (a b : String) → not (b == a) ≡ true → (a == b) ≡ false
turned a b h = elim (Bool-cases (a == b)) [
  | inl same ↦ absurd (false≢true (ap not (sym ((==_iff b a).1 (sym ((==_iff a b).0 same)))) ∙ h))
  | inr other ↦ other
]

module _ (usable : String → Bool) (plans : List PlanOption)
    (listed : All (λ (p : PlanOption). usable p.id ≡ true) plans) where
  listed-usable : (plan : String) → includes (plan_ids plans) plan ≡ true → usable plan ≡ true
  listed-usable plan e =
      let (_, named, ok) = All-includes _ (λ (p : PlanOption). p.id) plans plan listed e in
      subst (λ id. usable id ≡ true) named ok

  candidate-usable :
      (c : Subscription) (plan : String)
      → includes (plan_ids (candidate_plans plans c)) plan ≡ true
      → (usable plan ≡ true) × ((c.plan_id == plan) ≡ false)
  unfolding candidate_plans
  candidate-usable c plan e =
      let (p, named, (ok, other)) =
        All-includes _ (λ (p : PlanOption). p.id) (filter (λ p. not (p.id == c.plan_id)) plans) plan
          (All-filter _ (λ p. not (p.id == c.plan_id)) plans listed) e in
      (
        subst (λ id. usable id ≡ true) named ok,
        turned c.plan_id plan (subst (λ id. not (id == c.plan_id) ≡ true) named other),
      )

  -- The service's answer to what the section sends.
  Sends-Answers :
      (inserted : String → Subscription) (user : User) {member : String} {r : Request}
      (rows : List Subscription)
      → live_count rows ≤ 1
      → AreDistinct rows
      → ((plan : String) → includes (ids rows) (inserted plan).id ≡ false)
      → is_some user.tenant_id ≡ true
      → Sends (some user) member plans rows r
      → Answers usable inserted user rows r
  unfolding server_takes submit_renew keeps_shape is_stuck answer
  Sends-Answers inserted user rows one d fresh tenant (enrolls q r shown among sent) =
      let (staff, empty) = enroll-Free user (current_of rows) shown in
      let (body, same, plan) = submit_enroll-create _ q r sent in
      subst (λ r. Answers usable inserted user rows r) same
        (inr (
          ground arith,
          enrolls-Taken usable inserted user rows one d fresh body empty staff tenant
              (subst (λ id. usable id ≡ true) (sym plan) (listed-usable q.plan_id among)),
        ))
  Sends-Answers inserted user rows one d fresh tenant (freezes c until e shown) =
      let (staff, may) = shows-Taken user c freeze shown in
      inr (
        ground arith,
        moved-Taken usable inserted user rows one d (λ s. can_freeze s.status) frozen c e staff may
            refl,
      )
  Sends-Answers inserted user rows one d fresh tenant (unfreezes c e shown) =
      let (staff, may) = shows-Taken user c unfreeze shown in
      inr (
        ground arith,
        moved-Taken usable inserted user rows one d (λ s. can_unfreeze s.status) active c e staff
            may refl,
      )
  Sends-Answers inserted user rows one d fresh tenant (renews c q e shown) =
      let (staff, may) = shows-Taken user c renew shown in
      inr (
        ground arith,
        moved-Taken usable inserted user rows one d (λ s. can_renew s.status) active c e staff may
            refl,
      )
  Sends-Answers inserted user rows one d fresh tenant (changes c plan date r e shown among sent) =
      let (staff, may) = shows-Taken user c change_plan shown in
      let (ok, other) = candidate-usable c plan among in
      subst (λ r. Answers usable inserted user rows r)
        (submit_change_plan-change c plan date r sent)
        (changes-Answers usable inserted user rows one d fresh c plan (or_null date) e staff may ok
          other)
  Sends-Answers inserted user rows one d fresh tenant (cancels c reason detail e shown) =
      let (staff, may) = shows-Taken user c cancel shown in
      cancels-Answers usable inserted user rows one d c (or_null reason) (or_null detail) e staff
        may

  -- The user belongs to a gym, the plans that the dialogs list are ones that the server takes, a new row has a new
  -- id, of the member's rows one at most is live and no two have the same id, the texts that are typed are no longer
  -- than the server allows, and a freeze does not end in the past. If the section, which shows these rows, sends to
  -- cancel a frozen subscription or to change its plan, the table refuses the update. Whatever else the section sends
  -- from these rows is performed, and leaves rows of which one at most is live and no two have the same id. The form of
  -- dates, and whether the member and the rows are of the gym, is not considered.
  pub Sends-Answered :
      (is_past : String → Bool) (inserted : String → Subscription) (user : User) {member : String}
      {r : Request} (rows : List Subscription)
      → live_count rows ≤ 1
      → AreDistinct rows
      → ((plan : String) → includes (ids rows) (inserted plan).id ≡ false)
      → is_some user.tenant_id ≡ true
      → accepts is_past r ≡ true
      → Sends (some user) member plans rows r
      → Answered usable inserted user is_past rows r
  unfolding perform
  Sends-Answered is_past inserted user rows one d fresh tenant fields s =
      rw fields (Sends-Answers inserted user rows one d fresh tenant s)
