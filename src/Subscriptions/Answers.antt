-- ===== src/Subscriptions/Answers.antt =====
-- What the service answers to the requests about the current subscription of a member.
use dopacrm.Base.{
  ◌≡◌, refl, ap, Bool, true, false, not, ◌&&◌, String, Option, none, some, List, ◌∷◌, ◌≤◌, includes,
  ◌⊎◌, Bool-cases, inl, inr, is_some, ◌==◌, string_eq, arith,
}
use dopacrm.Auth.Types.{User}
use dopacrm.Subscriptions.Types.{
  SubscriptionStatus, frozen, cancelled, subscription_status_eq, replaced, Subscription,
  CreateRequest, Request,
}
use dopacrm.Subscriptions.Section.{current_of}
use dopacrm.Subscriptions.OneLive.{
  ids, ids-set_status, AreDistinct, one_if, live_count, is_live_status, live_count-set_status,
  live_count-none, live_count-cons, set_status-AreDistinct, find_by_id-current_of,
}
use dopacrm.Subscriptions.Laws.{find_live-current_of, transition-current_of}
use dopacrm.Server.Subscriptions.{
  can_change_plan, can_cancel, require_staff, set_status, keeps_shape, transition, new_row,
  insert_row, answer,
}

count-after :
    (status : SubscriptionStatus) (rows : List Subscription) (c : Subscription)
    → current_of rows ≡ some c
    → AreDistinct rows
    → live_count rows ≤ 1
    → live_count (set_status c.id status rows) ≤ one_if (is_live_status status)
count-after status rows c e d one = omega (arith, live_count-set_status status rows c e d)

-- Whether the request ends the current subscription, by a cancellation or another plan.
abbrev pub is_end : Request → Bool
is_end (Request.cancel _ _ _) = true
is_end (Request.change_plan _ _ _) = true
is_end _ = false

abbrev pub is_frozen : Option Subscription → Bool
is_frozen none = false
is_frozen (some c) = c.status == frozen

-- The request ends a current subscription that is frozen.
unfoldable pub is_stuck : List Subscription → Request → Bool
unfolding subscription_status_eq
is_stuck rows r = is_frozen (current_of rows) && is_end r

module _ (usable : String → Bool) (inserted : String → Subscription) (user : User) where
  -- The service answers with rows of which one at most is live and no two have the same id.
  abbrev pub Taken : List Subscription → Request → Type 0
  Taken rows r =
      (after : List Subscription) × (answer usable inserted user r rows ≡ some after)
      × (live_count after ≤ 1)
      × AreDistinct after

  -- The service performs the request, except to end a frozen subscription, which fails.
  abbrev pub Answers : List Subscription → Request → Type 0
  Answers rows r =
      ((is_stuck rows r ≡ true) × (answer usable inserted user r rows ≡ none))
      ⊎ ((is_stuck rows r ≡ false) × Taken rows r)

  module _ (rows : List Subscription) (one : live_count rows ≤ 1) (d : AreDistinct rows) where
    pub moved-Taken :
        (may : Subscription → Bool) (status : SubscriptionStatus) (c : Subscription)
        → current_of rows ≡ some c
        → require_staff user ≡ true
        → may c ≡ true
        → keeps_shape c.status status ≡ true
        → (after : List Subscription) × (transition user may status c.id rows ≡ some after)
          × (live_count after ≤ 1)
          × AreDistinct after
    moved-Taken may status c e staff ok kept = (
      set_status c.id status rows,
      transition-current_of user may status rows c e d staff ok kept,
      ground (arith, count-after status rows c e d one),
      set_status-AreDistinct c.id status rows d,
    )

    -- The table refuses to cancel a frozen row, and to replace it.
    stuck-none :
        (may : Subscription → Bool) (status : SubscriptionStatus) (c : Subscription)
        → current_of rows ≡ some c
        → keeps_shape c.status status ≡ false
        → transition user may status c.id rows ≡ none
    unfolding transition
    stuck-none may status c e stuck =
        rw (transition, find_by_id-current_of rows c e d, stuck) (ground arith)

    module _ (fresh : (plan : String) → includes (ids rows) (inserted plan).id ≡ false) where
      create-Taken :
          (plan : String)
          → current_of rows ≡ none
          → (live_count (new_row usable inserted plan ∷ rows) ≤ 1)
            × AreDistinct (new_row usable inserted plan ∷ rows)
      create-Taken plan e = (
        omega (arith, live_count-cons (new_row usable inserted plan) rows, live_count-none rows e),
        (fresh plan, d),
      )

      replace-Taken :
          (plan : String) (c : Subscription)
          → current_of rows ≡ some c
          → (live_count (new_row usable inserted plan ∷ set_status c.id replaced rows) ≤ 1)
            × AreDistinct (new_row usable inserted plan ∷ set_status c.id replaced rows)
      unfolding is_live_status
      replace-Taken plan c e = (
        omega (
          arith,
          live_count-cons (new_row usable inserted plan) (set_status c.id replaced rows),
          count-after replaced rows c e d one,
        ),
        (
          rw (ids-set_status c.id replaced rows) (fresh plan),
          set_status-AreDistinct c.id replaced rows d,
        ),
      )

      pub enrolls-Taken :
          (q : CreateRequest)
          → current_of rows ≡ none
          → require_staff user ≡ true
          → is_some user.tenant_id ≡ true
          → usable q.plan_id ≡ true
          → Taken rows (Request.create q)
      unfolding answer
      enrolls-Taken q e staff tenant ok = (
        new_row usable inserted q.plan_id ∷ rows,
        rw (find_live-current_of rows, e, staff, tenant, ok) refl,
        (create-Taken q.plan_id e).0,
        (create-Taken q.plan_id e).1,
      )

      changes-Taken :
          (c : Subscription) (plan : String) (date : Option String)
          → current_of rows ≡ some c
          → require_staff user ≡ true
          → can_change_plan c.status ≡ true
          → (c.plan_id == plan) ≡ false
          → usable plan ≡ true
          → (c.status == frozen) ≡ false
          → Taken rows (Request.change_plan c.id plan date)
      unfolding answer string_eq keeps_shape
      changes-Taken c plan date e staff may other ok warm = (
        new_row usable inserted plan ∷ set_status c.id replaced rows,
        ap (insert_row usable inserted plan) (
            transition-current_of user
              (λ s. can_change_plan s.status && not (s.plan_id == plan) && usable plan) replaced
              rows c e d staff (rw (may, other, ok) refl) (rw warm refl)),
        (replace-Taken plan c e).0,
        (replace-Taken plan c e).1,
      )

      pub changes-Answers :
          (c : Subscription) (plan : String) (date : Option String)
          → current_of rows ≡ some c
          → require_staff user ≡ true
          → can_change_plan c.status ≡ true
          → usable plan ≡ true
          → (c.plan_id == plan) ≡ false
          → Answers rows (Request.change_plan c.id plan date)
      unfolding answer keeps_shape is_stuck
      changes-Answers c plan date e staff may ok other = elim (Bool-cases (c.status == frozen)) [
        | inl cold ↦ inl (
          rw (e, cold) refl,
          ap (insert_row usable inserted plan) (
              stuck-none (λ s. can_change_plan s.status && not (s.plan_id == plan) && usable plan)
                replaced c e (rw cold refl)),
        )
        | inr warm ↦ inr (rw (e, warm) refl, changes-Taken c plan date e staff may other ok warm)
      ]

    pub cancels-Answers :
        (c : Subscription) (reason detail : Option String)
        → current_of rows ≡ some c
        → require_staff user ≡ true
        → can_cancel c.status ≡ true
        → Answers rows (Request.cancel c.id reason detail)
    unfolding answer keeps_shape is_stuck
    cancels-Answers c reason detail e staff may = elim (Bool-cases (c.status == frozen)) [
      | inl cold ↦
          inl
            (rw (e, cold) refl, stuck-none (λ s. can_cancel s.status) cancelled c e (rw cold refl))
      | inr warm ↦ inr (
        rw (e, warm) refl,
        moved-Taken (λ s. can_cancel s.status) cancelled c e staff may (rw warm refl),
      )
    ]
