-- ===== src/Payments/Refunds/Sums.antt =====
-- The two ways to add up the refunds of a payment, and what is left of an amount.
use dopacrm.Base.{
  ◌≡◌, refl, sym, ap, ◌∙◌, ◌≢◌, true, false, not, ◌||◌, String, none, some, List, [], ◌∷◌, ℕ, zero,
  suc, ◌==◌, ==_iff, ==_none, ==_some, string_eq, option_eq, get_or, Bool-cases, Option-cases, inl,
  inr, arith, if◌then◌else◌,
}
use dopacrm.Base.Integers.{ℤ, pos, negsuc, neg, ◌+ℤ◌, ◌-ℤ◌, leb_ℤ}
use dopacrm.Payments.Refunds.{
  Payment, Totals, set_total, add_refund, add_refunds, refunds_by_original, refunds_of, sum_from,
  already_refunded,
}

set_total-same : (j k : String) (v : ℤ) (map : Totals) → j ≡ k → set_total j v map k ≡ some v
unfolding set_total
set_total-same j k v map e = rw ((==_iff j k).1 e) refl

set_total-other :
    (j k : String) (v : ℤ) (map : Totals) → (j == k) ≡ false → set_total j v map k ≡ map k
unfolding set_total
set_total-other j k v map e = rw e refl

id-set : (of id : String) → of ≡ id → id ≢ "" → (of == "") ≡ false
id-set of id e h = elim (Bool-cases (of == "")) [
  | inl blank ↦ absurd (h (sym e ∙ (==_iff of "").0 blank))
  | inr set ↦ set
]

add_refund-at :
    (p : Payment) (map : Totals) (id : String)
    → id ≢ ""
    → get_or (add_refund p map id) (pos 0) ≡ (
        if p.refund_of_payment_id == some id
        then get_or (map id) (pos 0) +ℤ neg p.amount_cents
        else get_or (map id) (pos 0))
unfolding add_refund
add_refund-at p map id h = elim (Option-cases p.refund_of_payment_id) [
  | inl e ↦ rw (e, ==_none id) refl
  | inr (of, e) ↦ elim (Bool-cases (of == id)) [
    | inl same ↦
        let same_id : of ≡ id = (==_iff of id).0 same in
        let set = id-set of id same_id h in
        rw (e, ==_some of id, set, same)
          (ap (λ k. get_or (map k) (pos 0) +ℤ neg p.amount_cents) same_id)
    | inr other ↦ elim (Bool-cases (of == "")) [
      | inl blank ↦ rw (e, ==_some of id, other, blank) refl
      | inr set ↦
          rw (e, ==_some of id, other, set)
            (ap (λ o. get_or o (pos 0)) (set_total-other of id _ map other))
    ]
  ]
]

add_refunds-at :
    (ps : List Payment) (map : Totals) (payment : Payment)
    → payment.id ≢ ""
    → get_or (add_refunds ps map payment.id) (pos 0)
      ≡ sum_from (get_or (map payment.id) (pos 0)) (refunds_of payment ps)
unfolding add_refunds
add_refunds-at [] map payment h = refl
add_refunds-at (p ∷ ps) map payment h =
    add_refunds-at ps (add_refund p map) payment h
    ∙ rw (add_refund-at p map payment.id h)
        (elim (Bool-cases (p.refund_of_payment_id == some payment.id)) [
          | inl e ↦ rw e refl
          | inr e ↦ rw e refl
        ])

-- Nothing is left of an amount that the refunds have reached.
pub rest-blocked :
    (n : ℕ) (r : ℤ) (cents : ℕ)
    → leb_ℤ (pos n) r ≡ true
    → (leb_ℤ (pos cents) (pos 0) || not (leb_ℤ (pos cents) (pos n -ℤ r))) ≡ true
rest-blocked n (pos zero) cents h = ground arith
rest-blocked n (pos (suc m)) cents h = ground arith
rest-blocked n (negsuc m) cents h = ground arith

-- A cent is left of an amount that the refunds have not reached.
pub rest-open : (n : ℕ) (r : ℤ) → leb_ℤ (pos n) r ≡ false → leb_ℤ (pos 1) (pos n -ℤ r) ≡ true
rest-open n (pos zero) h = ground arith
rest-open n (pos (suc m)) h = ground arith
rest-open n (negsuc m) h = ground arith

-- What fits under the rest fits, with the refunds so far, under the amount.
pub rest-fits :
    (n : ℕ) (r : ℤ) (cents : ℕ)
    → leb_ℤ (pos cents) (pos n -ℤ r) ≡ true
    → leb_ℤ (r +ℤ pos cents) (pos n) ≡ true
rest-fits n (pos zero) cents h = ground arith
rest-fits n (pos (suc m)) cents h = ground arith
rest-fits n (negsuc m) cents h = ground arith

-- The two ways to add up the refunds of a payment agree.
pub refunds_by_original-already_refunded :
    (ps : List Payment) (payment : Payment)
    → payment.id ≢ ""
    → get_or (refunds_by_original ps payment.id) (pos 0) ≡ already_refunded ps payment
refunds_by_original-already_refunded ps payment h = add_refunds-at ps (λ _. none) payment h
