-- ===== src/Payments/Refunds/Laws.antt =====
-- The table of payments against the dialog that refunds one.
use dopacrm.Base.{
  ◌≡◌, refl, sym, ap, ◌∙◌, ◌≢◌, ◌↔◌, Bool, true, false, not, ◌||◌, String, Option, none, some, List,
  [], ◌∷◌, ◌++◌, ℕ, zero, suc, ◌==◌, ==_refl, ==_none, string_eq, option_eq, filter, is_some,
  Bool-cases, Option-cases, inl, inr, arith, if◌then◌else◌,
}
use mathlib.Core.Path.{subst}
use mathlib.Core.Option.{none-ne-some, some-injective}
use dopacrm.Base.Integers.{ℤ, pos, negsuc, neg, ◌+ℤ◌, ◌-ℤ◌, leb_ℤ}
use dopacrm.Payments.Refunds.{
  Payment, is_refund, is_fully_refunded, refunds_of, sum_from, already_refunded, remaining, submit,
}
use dopacrm.Payments.Refunds.Sums.{
  rest-blocked, rest-open, rest-fits, refunds_by_original-already_refunded,
}

fully-eq :
    (ps : List Payment) (payment : Payment) (n : ℕ)
    → payment.id ≢ ""
    → payment.amount_cents ≡ pos (suc n)
    → is_refund payment ≡ false
    → is_fully_refunded ps payment ≡ leb_ℤ (pos (suc n)) (already_refunded ps payment)
unfolding is_fully_refunded
fully-eq ps payment n h amount original =
    let positive : leb_ℤ (pos (suc n)) (pos 0) ≡ false = ground arith in
    rw (original, amount, positive)
      (ap (leb_ℤ (pos (suc n))) (refunds_by_original-already_refunded ps payment h))

submit-blocked :
    (ps : List Payment) (payment : Payment) (n : ℕ) (cents : ℤ)
    → payment.amount_cents ≡ pos (suc n)
    → leb_ℤ (pos (suc n)) (already_refunded ps payment) ≡ true
    → submit ps payment (some cents) ≡ none
unfolding submit
submit-blocked ps payment n (negsuc c) amount h = refl
submit-blocked ps payment n (pos c) amount h = rw amount (
    ap (λ b. if b then none else some (pos c))
      (rest-blocked (suc n) (already_refunded ps payment) c h))

submit-open :
    (ps : List Payment) (payment : Payment) (n : ℕ)
    → payment.amount_cents ≡ pos (suc n)
    → leb_ℤ (pos (suc n)) (already_refunded ps payment) ≡ false
    → submit ps payment (some (pos 1)) ≡ some (pos 1)
unfolding submit
submit-open ps payment n amount h = rw amount (
    ap (λ b. if not b then none else some (pos 1))
      (rest-open (suc n) (already_refunded ps payment) h))

-- Over one list of payments, the table says of a payment that is no refund and has a positive amount that it
-- is fully refunded exactly where the dialog would send no refund, whatever is typed into it.
pub is_fully_refunded-submit :
    (ps : List Payment) (payment : Payment) (n : ℕ)
    → payment.id ≢ ""
    → payment.amount_cents ≡ pos (suc n)
    → is_refund payment ≡ false
    → (is_fully_refunded ps payment ≡ true) ↔ ((cents : ℤ) → submit ps payment (some cents) ≡ none)
is_fully_refunded-submit ps payment n h amount original =
    let same = fully-eq ps payment n h amount original in
    (
      λ full cents. submit-blocked ps payment n cents amount (sym same ∙ full),
      λ blocked. elim (Bool-cases (leb_ℤ (pos (suc n)) (already_refunded ps payment))) [
        | inl e ↦ same ∙ e
        | inr e ↦
            absurd
              (none-ne-some (pos 1) (sym (blocked (pos 1)) ∙ submit-open ps payment n amount e))
      ],
    )

sum_from-append :
    (ps qs : List Payment) (sum : ℤ) → sum_from sum (ps ++ qs) ≡ sum_from (sum_from sum ps) qs
sum_from-append [] qs sum = refl
sum_from-append (p ∷ ps) qs sum = sum_from-append ps qs (sum +ℤ neg p.amount_cents)

filter-append :
    (f : Payment → Bool) (ps qs : List Payment) → filter f (ps ++ qs) ≡ filter f ps ++ filter f qs
filter-append f [] qs = refl
filter-append f (p ∷ ps) qs = elim (Bool-cases (f p)) [
  | inl e ↦ rw e (ap (λ r. p ∷ r) (filter-append f ps qs))
  | inr e ↦ rw e (filter-append f ps qs)
]

-- The row that the server adds for a refund.
abbrev pub refund_row : String → Payment → ℤ → Payment
refund_row id payment cents = record {
  id = id;
  amount_cents = neg cents;
  refund_of_payment_id = some payment.id;
}

neg-neg : (a : ℤ) → neg (neg a) ≡ a
neg-neg (pos zero) = refl
neg-neg (pos (suc n)) = refl
neg-neg (negsuc n) = refl

or-false : (a b : Bool) → (a || not b) ≡ false → (a ≡ false) × (b ≡ true)
or-false true true h = ground arith
or-false true false h = ground arith
or-false false true h = (refl, refl)
or-false false false h = ground arith

submit-fits :
    (ps : List Payment) (payment : Payment) (typed : Option ℤ) (cents : ℤ)
    → submit ps payment typed ≡ some cents
    → (leb_ℤ cents (pos 0) ≡ false) × (leb_ℤ cents (remaining ps payment) ≡ true)
unfolding submit
submit-fits ps payment none cents sent = absurd (none-ne-some cents sent)
submit-fits ps payment (some typed) cents sent =
    elim (Bool-cases (leb_ℤ typed (pos 0) || not (leb_ℤ typed (remaining ps payment)))) [
      | inl e ↦ absurd (none-ne-some cents (rw e at sent))
      | inr e ↦
          subst (λ c. (leb_ℤ c (pos 0) ≡ false) × (leb_ℤ c (remaining ps payment) ≡ true))
            (some-injective typed cents (rw e at sent))
            (or-false (leb_ℤ typed (pos 0)) (leb_ℤ typed (remaining ps payment)) e)
    ]

refunds_of-append :
    (ps : List Payment) (payment : Payment) (id : String) (cents : ℤ)
    → refunds_of payment (ps ++ (refund_row id payment cents ∷ []))
      ≡ refunds_of payment ps ++ (refund_row id payment cents ∷ [])
refunds_of-append ps payment id cents =
    filter-append (λ p. p.refund_of_payment_id == some payment.id) ps
      (refund_row id payment cents ∷ [])
    ∙ rw (==_refl (some payment.id)) refl

refunds_of-row :
    (ps : List Payment) (payment : Payment) (id : String) (cents : ℤ)
    → already_refunded (ps ++ (refund_row id payment cents ∷ [])) payment
      ≡ already_refunded ps payment +ℤ cents
refunds_of-row ps payment id cents =
    ap (sum_from (pos 0)) (refunds_of-append ps payment id cents)
    ∙ sum_from-append (refunds_of payment ps) (refund_row id payment cents ∷ []) (pos 0)
    ∙ ap (λ c. already_refunded ps payment +ℤ c) (neg-neg cents)

positive-fits :
    (n : ℕ) (r cents : ℤ)
    → leb_ℤ cents (pos 0) ≡ false
    → leb_ℤ cents (pos n -ℤ r) ≡ true
    → leb_ℤ (r +ℤ cents) (pos n) ≡ true
positive-fits n r (pos c) p h = rest-fits n r c h
positive-fits n r (negsuc c) p h = ground arith

-- A refund that the dialog sends, once its row is in the list, leaves the refunds of the payment within the
-- amount.
pub submit-already_refunded :
    (ps : List Payment) (payment : Payment) (n : ℕ) (typed : Option ℤ) (cents : ℤ) (id : String)
    → payment.amount_cents ≡ pos n
    → submit ps payment typed ≡ some cents
    → leb_ℤ
        (already_refunded (ps ++ (refund_row id payment cents ∷ [])) payment)
        payment.amount_cents
      ≡ true
submit-already_refunded ps payment n typed cents id amount sent =
    let fits = submit-fits ps payment typed cents sent in
    rw (refunds_of-row ps payment id cents, amount)
      (positive-fits n (already_refunded ps payment) cents fits.0
        (subst (λ a. leb_ℤ cents (a -ℤ already_refunded ps payment) ≡ true) amount fits.1))

-- The list that the page asks for while it leaves refunds out: the server then sends no row that refunds
-- another payment.
abbrev pub without_refunds : List Payment → List Payment
without_refunds ps = filter (λ p. not (is_some p.refund_of_payment_id)) ps

refunds_of-without :
    (ps : List Payment) (payment : Payment) → refunds_of payment (without_refunds ps) ≡ []
refunds_of-without [] payment = refl
refunds_of-without (p ∷ ps) payment = elim (Option-cases p.refund_of_payment_id) [
  | inl e ↦ rw (e, ==_none payment.id) (refunds_of-without ps payment)
  | inr (id, e) ↦ rw e (refunds_of-without ps payment)
]

-- While the page leaves refunds out, it takes no payment for fully refunded, whatever has been refunded.
pub is_fully_refunded-without_refunds :
    (ps : List Payment) (payment : Payment)
    → payment.id ≢ ""
    → is_fully_refunded (without_refunds ps) payment ≡ false
unfolding is_fully_refunded
is_fully_refunded-without_refunds ps payment h = elim (Bool-cases (is_refund payment)) [
  | inl e ↦ rw e refl
  | inr e ↦ elim (Bool-cases (leb_ℤ payment.amount_cents (pos 0))) [
    | inl f ↦ rw (e, f) refl
    | inr f ↦
        rw (e, f)
          (ap (leb_ℤ payment.amount_cents) (
              refunds_by_original-already_refunded (without_refunds ps) payment h
              ∙ ap (sum_from (pos 0)) (refunds_of-without ps payment))
            ∙ f)
  ]
]
