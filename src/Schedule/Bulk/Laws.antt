-- ===== src/Schedule/Bulk/Laws.antt =====
-- The bulk dialog against the checks of the server.
use dopacrm.Base.{
  ◌≡◌, refl, sym, ap, ◌∙◌, Bool, true, false, not, ◌&&◌, ◌||◌, ◌+◌, ◌≤◌, String, Option, none, some,
  List, [], ◌∷◌, ℕ, leb, filter, is_some, ◌==◌, string_eq, Bool-cases, Option-cases, inl, inr, ◌⊎◌,
  arith, if◌then◌else◌,
}
use mathlib.Core.Path.{subst}
use mathlib.Core.Bool.{true≢false}
use mathlib.Core.Option.{none-ne-some, some-injective}
use dopacrm.Auth.Types.{User, owner, super_admin, role_eq}
use dopacrm.Server.Schedule.{
  ClassCoach, Action, cancel, swap_coach, BulkRequest, ends_after, any, current_for_coach, has_rate,
  substitute_pay_required, pay_given, valid_bulk, swap_error, action_error, bulk_error,
}
use dopacrm.Base.Integers.{ℤ, pos, negsuc, leb_ℤ}
use dopacrm.Base.Scan.{size, fits-or_null}
use dopacrm.Schedule.Bulk.{
  Fields, links_for_class, covers, is_swap, max_zero, needs_sub_pay, request_of, submit_range,
  submit_chosen, submit_bulk,
}

any-filter :
    (p q : ClassCoach → Bool) (rows : List ClassCoach)
    → any p (filter q rows) ≡ any (λ l. q l && p l) rows
any-filter p q [] = refl
any-filter p q (l ∷ ls) = elim (Bool-cases (q l)) [
  | inl keep ↦ rw keep (ap (λ b. p l || b) (any-filter p q ls))
  | inr drop ↦ rw drop (any-filter p q ls)
]

any-same :
    (p q : ClassCoach → Bool) (rows : List ClassCoach)
    → ((l : ClassCoach) → p l ≡ q l)
    → any p rows ≡ any q rows
any-same p q [] same = refl
any-same p q (l ∷ ls) same = rw (same l, any-same p q ls same) refl

ends_after-today :
    (today from : ℕ) (e : Option ℕ)
    → today ≤ from
    → ends_after from e ≡ true
    → ends_after today e ≡ true
ends_after-today today from none h k = refl
ends_after-today today from (some last) h k = ground arith

reorder :
    (class coach starts ends now : Bool)
    → (ends ≡ true → now ≡ true)
    → (class && (coach && starts && ends)) ≡ (coach && now && (class && starts && ends))
reorder class coach starts true now h = rw (h refl) (ground arith)
reorder class coach starts false now h = ground arith

-- For a range that does not begin in the past, the dialog and the server find the same rates.
covers-has_rate :
    (today : ℕ) (rows : List ClassCoach) (r : BulkRequest) (coach : String)
    → today ≤ r.from
    → covers coach r.from r.to (links_for_class r.class_id rows) ≡ has_rate today rows r coach
unfolding covers links_for_class has_rate current_for_coach
covers-has_rate today rows r coach h =
    any-filter _ (λ l. l.class_id == r.class_id) rows
    ∙ (any-same _ _ rows (λ l.
          reorder (l.class_id == r.class_id) (l.coach_id == coach) (leb l.starts_on r.to)
            (ends_after r.from l.ends_on) (ends_after today l.ends_on)
            (ends_after-today today r.from l.ends_on h))
        ∙ sym (any-filter _ (λ l. l.coach_id == coach && ends_after today l.ends_on) rows))

Action-cases : (a : Action) → (a ≡ cancel) ⊎ (a ≡ swap_coach)
Action-cases cancel = inl refl
Action-cases swap_coach = inr refl

absorbed : (b : Bool) → (if not b && not (not b) then some substitute_pay_required else none) ≡ none
absorbed true = refl
absorbed false = refl

-- What is in order apart from the action: the range, and who asks.
range_error-none :
    (caller : User) (today : ℕ) (rows : List ClassCoach) (r : BulkRequest)
    → valid_bulk r ≡ true
    → is_some caller.tenant_id ≡ true
    → (caller.role == owner || caller.role == super_admin) ≡ true
    → r.from ≤ r.to
    → r.to ≤ r.from + 366
    → bulk_error caller today rows r ≡ action_error today rows r r.action
unfolding bulk_error
range_error-none caller today rows r valid gym w ordered short = rw (valid, gym, w) (ground arith)

swap_error-none :
    (today : ℕ) (rows : List ClassCoach) (r : BulkRequest) (coach : String)
    → today ≤ r.from
    → pay_given r ≡ not (covers coach r.from r.to (links_for_class r.class_id rows))
    → swap_error today rows r (some coach) ≡ none
swap_error-none today rows r coach h given =
    rw (given, covers-has_rate today rows r coach h) (absorbed (has_rate today rows r coach))

pay_given-request_of :
    (d : Fields) (class : String) (from to : ℕ) (pay : Bool)
    → pay_given (request_of d class from to pay) ≡ pay
pay_given-request_of d class from to true = refl
pay_given-request_of d class from to false = refl

pub max_zero-positive : (n : ℤ) → leb_ℤ (pos 0) (max_zero n) ≡ true
max_zero-positive (pos n) = ground arith
max_zero-positive (negsuc n) = ground arith

request_of-valid_bulk :
    (d : Fields) (class : String) (from to : ℕ) (pay : Bool)
    → size d.reason ≤ 500
    → valid_bulk (request_of d class from to pay) ≡ true
request_of-valid_bulk d class from to true h =
    rw (fits-or_null 500 d.reason h, max_zero-positive d.sub_pay_cents) refl
request_of-valid_bulk d class from to false h = rw (fits-or_null 500 d.reason h) refl

-- What is sent for a swap to a coach, and for a cancellation.
submit_range-request_of :
    (d : Fields) (links : Option (List ClassCoach)) (class : String) (from to : ℕ) (r : BulkRequest)
    → submit_range d links class from to ≡ some r
    → (request_of d class from to (needs_sub_pay d links) ≡ r)
      × ((is_swap d.action && not (is_some d.coach)) ≡ false)
submit_range-request_of d links class from to r sent =
    elim (Bool-cases (is_swap d.action && not (is_some d.coach))) [
      | inl missing ↦ absurd (none-ne-some r (rw missing at sent))
      | inr there ↦ (some-injective _ r (rw there at sent), there)
    ]

needs_sub_pay-swap :
    (d : Fields) (links : List ClassCoach) (class coach : String) (from to : ℕ)
    → d.class ≡ some class
    → d.from ≡ some from
    → d.to ≡ some to
    → d.action ≡ swap_coach
    → d.coach ≡ some coach
    → needs_sub_pay d (some links) ≡ not (covers coach from to links)
needs_sub_pay-swap d links class coach from to c f t a k = rw (c, f, t, a, k) refl

swapped :
    (today : ℕ) (rows : List ClassCoach) (r : BulkRequest) (action : Action)
    → action ≡ swap_coach
    → swap_error today rows r r.new_coach_id ≡ none
    → action_error today rows r action ≡ none
swapped today rows r action a ok = subst (λ x. action_error today rows r x ≡ none) (sym a) ok

new_coach_of :
    (action : Action) (chosen : Option String)
    → action ≡ swap_coach
    → (if is_swap action then chosen else none) ≡ chosen
new_coach_of action chosen a = rw a refl

request-none :
    (today : ℕ) (rows : List ClassCoach) (d : Fields) (class : String) (from to : ℕ)
    → d.class ≡ some class
    → d.from ≡ some from
    → d.to ≡ some to
    → today ≤ from
    → (is_swap d.action && not (is_some d.coach)) ≡ false
    → let r = request_of d class from to (needs_sub_pay d (some (links_for_class class rows))) in
      action_error today rows r r.action ≡ none
request-none today rows d class from to c f t h there = elim (Action-cases d.action) [
  | inl off ↦ rw off refl
  | inr swap ↦ elim (Option-cases d.coach) [
    | inl missing ↦ absurd (true≢false (rw (swap, missing) at there))
    | inr (coach, k) ↦
        let links = links_for_class class rows in
        let r = request_of d class from to (needs_sub_pay d (some links)) in
        swapped today rows r d.action swap (
          ap (swap_error today rows r) (new_coach_of d.action d.coach swap ∙ k)
          ∙ swap_error-none today rows r coach h (
              pay_given-request_of d class from to (needs_sub_pay d (some links))
              ∙ needs_sub_pay-swap d links class coach from to c f t swap k))
  ]
]

chosen :
    (d : Fields) (links : Option (List ClassCoach)) (c : Option String) (f t : Option ℕ)
    (class : String) (from to : ℕ)
    → c ≡ some class
    → f ≡ some from
    → t ≡ some to
    → submit_chosen d links c f t ≡ submit_range d links class from to
chosen d links c f t class from to p q r = rw (p, q, r) refl

-- Whether the gym has the schedule, whether the class and the coach are of the gym, and whether the coach already has a
-- row with the role that the server would make up for a substitute, is not considered. The user is an owner or a super admin and has a gym, a class and a range are chosen that does not begin in the past, is not
-- reversed and ends at most 366 days after its beginning, the reason has at most 500 characters, and the rows of the
-- class have come. Then neither the limits of the request nor the checks of the service raise an error over what the
-- dialog sends: a substitute's pay is given wherever the server wants it.
pub submit_bulk-taken :
    (caller : User) (today : ℕ) (rows : List ClassCoach) (d : Fields) (class : String) (from to : ℕ)
    (r : BulkRequest)
    → is_some caller.tenant_id ≡ true
    → (caller.role == owner || caller.role == super_admin) ≡ true
    → size d.reason ≤ 500
    → d.class ≡ some class
    → d.from ≡ some from
    → d.to ≡ some to
    → today ≤ from
    → from ≤ to
    → to ≤ from + 366
    → submit_bulk d (some (links_for_class class rows)) ≡ some r
    → bulk_error caller today rows r ≡ none
submit_bulk-taken caller today rows d class from to r gym w brief c f t h ordered short sent =
    let links = some (links_for_class class rows) in
    let (same, there) =
      submit_range-request_of d links class from to r
        (sym (chosen d links d.class d.from d.to class from to c f t) ∙ sent) in
    let made = request_of d class from to (needs_sub_pay d links) in
    subst (λ x. bulk_error caller today rows x ≡ none) same
      (range_error-none caller today rows made
          (request_of-valid_bulk d class from to (needs_sub_pay d links) brief) gym w ordered short
        ∙ request-none today rows d class from to c f t h there)
