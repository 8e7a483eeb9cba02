-- ===== src/Subscriptions/OneLive.antt =====
-- The current subscription among the rows of a member, and how many of the rows are live.
use dopacrm.Base.{
  ◌≡◌, refl, sym, ap, ◌∙◌, Bool, true, false, ◌||◌, String, none, some, List, [], ◌∷◌, ℕ, ◌+◌, ◌≤◌,
  map, includes, ◌==◌, string_eq, ==_refl, ==_iff, Bool-cases, inl, inr, arith,
}
use mathlib.Core.Path.{subst}
use mathlib.Core.Option.{some-injective, none-ne-some, some-ne-none}
use mathlib.Core.Bool.{true≢false}
use dopacrm.Subscriptions.Types.{
  SubscriptionStatus, active, frozen, subscription_status_eq, Subscription,
}
use dopacrm.Subscriptions.Section.{is_live, current_of}
use dopacrm.Server.Subscriptions.{set_status, find_by_id}

abbrev pub ids : List Subscription → List String
ids rows = map (λ (s : Subscription). s.id) rows

-- No two rows have the same id.
abbrev pub AreDistinct : List Subscription → Type 0
AreDistinct [] = Unit
AreDistinct (s ∷ ss) = (includes (ids ss) s.id ≡ false) × AreDistinct ss

abbrev pub one_if : Bool → ℕ
one_if true = 1
one_if false = 0

unfoldable pub live_count : List Subscription → ℕ
live_count [] = 0
live_count (s ∷ ss) = one_if (is_live s) + live_count ss

pub live_count-cons :
    (s : Subscription) (ss : List Subscription) → live_count (s ∷ ss) ≤ live_count ss + 1
unfolding live_count
live_count-cons s ss = elim (Bool-cases (is_live s)) [
  | inl live ↦ rw live (omega arith)
  | inr dead ↦ rw dead (omega arith)
]

unfoldable pub is_live_status : SubscriptionStatus → Bool
unfolding subscription_status_eq
is_live_status status = status == active || status == frozen

pub current_of-live :
    (rows : List Subscription) (c : Subscription)
    → current_of rows ≡ some c
    → (is_live c ≡ true) × (includes (ids rows) c.id ≡ true)
current_of-live [] c e = absurd (none-ne-some c e)
current_of-live (s ∷ ss) c e = elim (Bool-cases (is_live s)) [
  | inl live ↦
      let same : s ≡ c = some-injective s c (rw live at e) in
      rw (← same) (live, rw (==_refl s.id) refl)
  | inr dead ↦ let (live, there) = current_of-live ss c (rw dead at e) in (live, ground arith)
]

-- A live row that comes later is not the one at the front.
apart :
    (s : Subscription) (ss : List Subscription) (c : Subscription)
    → includes (ids ss) s.id ≡ false
    → includes (ids ss) c.id ≡ true
    → (s.id == c.id) ≡ false
apart s ss c new there = elim (Bool-cases (s.id == c.id)) [
  | inl same ↦
      let e : s.id ≡ c.id = (==_iff s.id c.id).0 same in
      absurd (true≢false (sym there ∙ (rw e at new)))
  | inr other ↦ other
]

pub find_by_id-current_of :
    (rows : List Subscription) (c : Subscription)
    → current_of rows ≡ some c
    → AreDistinct rows
    → find_by_id c.id rows ≡ some c
unfolding find_by_id
find_by_id-current_of [] c e d = absurd (none-ne-some c e)
find_by_id-current_of (s ∷ ss) c e (new, d) = elim (Bool-cases (is_live s)) [
  | inl live ↦
      let same : s ≡ c = some-injective s c (rw live at e) in rw (← same) (rw (==_refl s.id) refl)
  | inr dead ↦
      let later : current_of ss ≡ some c = rw dead at e in
      rw (apart s ss c new (current_of-live ss c later).1) (find_by_id-current_of ss c later d)
]

set_status-absent :
    (id : String) (status : SubscriptionStatus) (rows : List Subscription)
    → includes (ids rows) id ≡ false
    → set_status id status rows ≡ rows
unfolding set_status
set_status-absent id status [] h = refl
set_status-absent id status (s ∷ ss) h =
    let here : (s.id == id) ≡ false = ground arith in
    let rest : includes (ids ss) id ≡ false = ground arith in
    rw here (ap (λ r. s ∷ r) (set_status-absent id status ss rest))

is_live-status :
    (s : Subscription) (status : SubscriptionStatus)
    → is_live (record s { status = status }) ≡ is_live_status status
unfolding is_live is_live_status
is_live-status s status = refl

live_count-first :
    (status : SubscriptionStatus) (s : Subscription) (ss : List Subscription)
    → is_live s ≡ true
    → includes (ids ss) s.id ≡ false
    → live_count (set_status s.id status (s ∷ ss)) + 1
      ≡ live_count (s ∷ ss) + one_if (is_live_status status)
unfolding live_count set_status
live_count-first status s ss live new =
    rw (==_refl s.id, set_status-absent s.id status ss new, live, is_live-status s status)
      (omega arith)

-- A new status for the current subscription changes the number of live rows by that row alone.
pub live_count-set_status :
    (status : SubscriptionStatus) (rows : List Subscription) (c : Subscription)
    → current_of rows ≡ some c
    → AreDistinct rows
    → live_count (set_status c.id status rows) + 1
      ≡ live_count rows + one_if (is_live_status status)
unfolding live_count set_status
live_count-set_status status [] c e d = absurd (none-ne-some c e)
live_count-set_status status (s ∷ ss) c e (new, d) = elim (Bool-cases (is_live s)) [
  | inl live ↦
      let same : s ≡ c = some-injective s c (rw live at e) in
      subst
        (λ (r : Subscription).
          live_count (set_status r.id status (s ∷ ss)) + 1
          ≡ live_count (s ∷ ss) + one_if (is_live_status status))
        same (live_count-first status s ss live new)
  | inr dead ↦
      let later : current_of ss ≡ some c = rw dead at e in
      rw (apart s ss c new (current_of-live ss c later).1, dead)
        (omega (arith, live_count-set_status status ss c later d))
]

pub live_count-none : (rows : List Subscription) → current_of rows ≡ none → live_count rows ≡ 0
unfolding live_count
live_count-none [] e = refl
live_count-none (s ∷ ss) e = elim (Bool-cases (is_live s)) [
  | inl live ↦ absurd (some-ne-none s (rw live at e))
  | inr dead ↦ rw dead (omega (arith, live_count-none ss (rw dead at e)))
]

pub ids-set_status :
    (id : String) (status : SubscriptionStatus) (rows : List Subscription)
    → ids (set_status id status rows) ≡ ids rows
unfolding set_status
ids-set_status id status [] = refl
ids-set_status id status (s ∷ ss) = elim (Bool-cases (s.id == id)) [
  | inl e ↦ rw e (ap (λ r. s.id ∷ r) (ids-set_status id status ss))
  | inr e ↦ rw e (ap (λ r. s.id ∷ r) (ids-set_status id status ss))
]

pub set_status-AreDistinct :
    (id : String) (status : SubscriptionStatus) (rows : List Subscription)
    → AreDistinct rows
    → AreDistinct (set_status id status rows)
unfolding set_status
set_status-AreDistinct id status [] d = tt
set_status-AreDistinct id status (s ∷ ss) (new, d) = elim (Bool-cases (s.id == id)) [
  | inl e ↦ rw (e, ids-set_status id status ss) (new, set_status-AreDistinct id status ss d)
  | inr e ↦ rw (e, ids-set_status id status ss) (new, set_status-AreDistinct id status ss d)
]
