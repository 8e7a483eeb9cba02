-- ===== src/Payments/Section.antt =====
-- PaymentsSection.tsx of frontend/src/features/payments: who may record and refund, the totals of a member's
-- payments, and what they come to.
use dopacrm.Base.{
  ◌≡◌, refl, sym, ap, ◌∙◌, Bool, true, false, ◌||◌, Option, none, some, List, [], ◌∷◌, ◌==◌, String,
  inl, inr, arith, Bool-cases, if◌then◌else◌,
}
use dopacrm.Base.Integers.{ℤ, pos, neg, ◌+ℤ◌, ◌-ℤ◌, leb_ℤ}
use dopacrm.Auth.Types.{owner, sales, staff, super_admin, role_eq, User}
use dopacrm.Payments.Refunds.{Payment}

-- `canWrite`
unfoldable pub can_write : Option User → Bool
unfolding role_eq
can_write none = false
can_write (some user) =
    user.role == owner || user.role == sales || user.role == staff || user.role == super_admin

-- `canRefund`
unfoldable pub can_refund : Option User → Bool
unfolding role_eq
can_refund none = false
can_refund (some user) = user.role == owner || user.role == super_admin

-- `totals`
pub record Collected : Type 0 where
  pub gross : ℤ
  pub refunds : ℤ

-- One round of the `reduce`.
unfoldable pub add_payment : Collected → Payment → Collected
add_payment acc p =
    if leb_ℤ p.amount_cents (pos 0)
    then record acc { refunds = acc.refunds +ℤ neg p.amount_cents }
    else record acc { gross = acc.gross +ℤ p.amount_cents }

abbrev pub totals_from : Collected → List Payment → Collected
totals_from acc [] = acc
totals_from acc (p ∷ ps) = totals_from (add_payment acc p) ps

abbrev pub totals : List Payment → Collected
totals payments = totals_from (record { gross = pos 0; refunds = pos 0 }) payments

-- `net`
abbrev pub net : Collected → ℤ
net t = t.gross -ℤ t.refunds

-- `currency`, for the currencies of the payments and of the live subscription
abbrev pub currency_of : List String → Option String → String
currency_of [] none = "ILS"
currency_of [] (some live) = live
currency_of (c ∷ cs) live = c

-- All amounts together, refunds as the negative amounts that they are.
abbrev pub sum : List Payment → ℤ
sum [] = pos 0
sum (p ∷ ps) = p.amount_cents +ℤ sum ps

+ℤ_assoc : (a b c : ℤ) → a +ℤ b +ℤ c ≡ a +ℤ (b +ℤ c)
+ℤ_assoc a b c = ground arith

+ℤ_zero : (a : ℤ) → a +ℤ pos 0 ≡ a
+ℤ_zero a = ground arith

net-refund : (g r a : ℤ) → g -ℤ (r +ℤ neg a) ≡ g -ℤ r +ℤ a
net-refund g r a = ground arith

net-gross : (g r a : ℤ) → g +ℤ a -ℤ r ≡ g -ℤ r +ℤ a
net-gross g r a = ground arith

net-add_payment :
    (acc : Collected) (p : Payment) → net (add_payment acc p) ≡ net acc +ℤ p.amount_cents
unfolding add_payment
net-add_payment acc p = elim (Bool-cases (leb_ℤ p.amount_cents (pos 0))) [
  | inl refund ↦ rw refund (net-refund acc.gross acc.refunds p.amount_cents)
  | inr paid ↦ rw paid (net-gross acc.gross acc.refunds p.amount_cents)
]

net-totals_from :
    (acc : Collected) (ps : List Payment) → net (totals_from acc ps) ≡ net acc +ℤ sum ps
net-totals_from acc [] = sym (+ℤ_zero (net acc))
net-totals_from acc (p ∷ ps) =
    net-totals_from (add_payment acc p) ps
    ∙ (ap (λ n. n +ℤ sum ps) (net-add_payment acc p) ∙ +ℤ_assoc (net acc) p.amount_cents (sum ps))

-- Neither total is negative.
abbrev IsPositive : Collected → Type 0
IsPositive t = (leb_ℤ (pos 0) t.gross ≡ true) × (leb_ℤ (pos 0) t.refunds ≡ true)

grown : (g a : ℤ) → leb_ℤ (pos 0) g ≡ true → leb_ℤ a (pos 0) ≡ false → leb_ℤ (pos 0) (g +ℤ a) ≡ true
grown g a h k = ground arith

given_back :
    (r a : ℤ) → leb_ℤ (pos 0) r ≡ true → leb_ℤ a (pos 0) ≡ true → leb_ℤ (pos 0) (r +ℤ neg a) ≡ true
given_back r a h k = ground arith

add_payment-IsPositive :
    (acc : Collected) (p : Payment) → IsPositive acc → IsPositive (add_payment acc p)
unfolding add_payment
add_payment-IsPositive acc p (g, r) = elim (Bool-cases (leb_ℤ p.amount_cents (pos 0))) [
  | inl refund ↦ rw refund (g, given_back acc.refunds p.amount_cents r refund)
  | inr paid ↦ rw paid (grown acc.gross p.amount_cents g paid, r)
]

totals_from-IsPositive :
    (acc : Collected) (ps : List Payment) → IsPositive acc → IsPositive (totals_from acc ps)
totals_from-IsPositive acc [] h = h
totals_from-IsPositive acc (p ∷ ps) h =
    totals_from-IsPositive (add_payment acc p) ps (add_payment-IsPositive acc p h)

zero_sum : (a : ℤ) → pos 0 -ℤ pos 0 +ℤ a ≡ a
zero_sum a = ground arith

-- What the section shows as collected and as refunded is never negative, and the difference, shown as the net
-- amount, is the sum of all the member's payments, refunds counted as negative.
pub totals-sum :
    (ps : List Payment)
    → (leb_ℤ (pos 0) (totals ps).gross ≡ true)
      × (leb_ℤ (pos 0) (totals ps).refunds ≡ true)
      × (net (totals ps) ≡ sum ps)
totals-sum ps =
    let start : Collected = record { gross = pos 0; refunds = pos 0 } in
    let (g, r) = totals_from-IsPositive start ps (refl, refl) in
    (g, r, net-totals_from start ps ∙ zero_sum (sum ps))
