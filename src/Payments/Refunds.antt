-- ===== src/Payments/Refunds.antt =====
-- What is left of a payment: `isFullyRefunded` of frontend/src/features/payments/PaymentsPage.tsx and
-- PaymentsSection.tsx, and RefundPaymentDialog.tsx.
mod Sums
pub mod Laws
use dopacrm.Base.{
  Bool, true, false, not, ◌&&◌, ◌||◌, String, Option, none, some, List, [], ◌∷◌, ℕ, ◌==◌, string_eq,
  option_eq, filter, get_or, is_some, if◌then◌else◌, leb,
}
use dopacrm.Base.Integers.{ℤ, pos, negsuc, neg, ◌+ℤ◌, ◌-ℤ◌, leb_ℤ}

pub record Payment : Type 0 where
  pub id : String
  pub amount_cents : ℤ
  pub refund_of_payment_id : Option String

-- `Map<string, number>`: what `get` answers for a key.
abbrev pub Totals : Type 0
Totals = String → Option ℤ

-- `map.set(id, cents)`
unfoldable pub set_total : String → ℤ → Totals → Totals
unfolding string_eq
set_total id cents map k = if id == k then some cents else map k

-- One round of the loop.
unfoldable pub add_refund : Payment → Totals → Totals
unfolding set_total string_eq
add_refund p map = elim p.refund_of_payment_id [
  | none ↦ map
  | some id ↦
      if id == "" then map else set_total id (get_or (map id) (pos 0) +ℤ neg p.amount_cents) map
]

unfoldable pub add_refunds : List Payment → Totals → Totals
unfolding add_refund
add_refunds [] map = map
add_refunds (p ∷ ps) map = add_refunds ps (add_refund p map)

-- `refundsByOriginal`
abbrev pub refunds_by_original : List Payment → Totals
refunds_by_original ps = add_refunds ps (λ _. none)

-- `!!p.refund_of_payment_id`
unfoldable pub is_refund : Payment → Bool
unfolding string_eq
is_refund p = elim p.refund_of_payment_id [ none ↦ false | some id ↦ not (id == "") ]

-- `isFullyRefunded`
unfoldable pub is_fully_refunded : List Payment → Payment → Bool
unfolding is_refund add_refunds
is_fully_refunded ps p =
    if is_refund p
    then false
    else if leb_ℤ p.amount_cents (pos 0)
    then false
    else leb_ℤ p.amount_cents (get_or (refunds_by_original ps p.id) (pos 0))

-- `(refundsQuery.data ?? []).filter(...)`
abbrev pub refunds_of : Payment → List Payment → List Payment
refunds_of payment ps = filter (λ p. p.refund_of_payment_id == some payment.id) ps

-- `refunds.reduce((sum, p) => sum + -p.amount_cents, sum)`
abbrev pub sum_from : ℤ → List Payment → ℤ
sum_from sum [] = sum
sum_from sum (p ∷ ps) = sum_from (sum +ℤ neg p.amount_cents) ps

abbrev pub already_refunded : List Payment → Payment → ℤ
already_refunded ps payment = sum_from (pos 0) (refunds_of payment ps)

abbrev pub remaining : List Payment → Payment → ℤ
remaining ps payment = payment.amount_cents -ℤ already_refunded ps payment

-- The request of `handleSubmit` for a number of cents; `none` stands for a text that is no finite number.
unfoldable pub submit : List Payment → Payment → Option ℤ → Option ℤ
submit ps payment none = none
submit ps payment (some cents) =
    if leb_ℤ cents (pos 0) || not (leb_ℤ cents (remaining ps payment)) then none else some cents

-- Whether the table offers to refund a payment.
unfoldable pub shows_refund : Bool → List Payment → Payment → Bool
unfolding is_fully_refunded
shows_refund can_refund ps p =
    can_refund && not (is_some p.refund_of_payment_id) && not (is_fully_refunded ps p)
