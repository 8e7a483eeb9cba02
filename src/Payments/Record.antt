-- ===== src/Payments/Record.antt =====
-- RecordPaymentDialog.tsx of frontend/src/features/payments: its fields, what the browser asks of them, and the
-- request. Dates are numbers of days, `none` for a date that has been cleared; the number of cents of the typed
-- amount is `Math.round(Number(amount) * 100)`, `none` where that is no finite number.
use dopacrm.Base.{
  ◌≡◌, refl, Bool, true, false, ◌&&◌, ◌+◌, ◌≤◌, String, Option, none, some, ℕ, ltb, leb, is_some,
  Bool-cases, inl, inr, ◌⊎◌, arith, ap, if◌then◌else◌,
}
use mathlib.Core.Path.{subst}
use mathlib.Core.Option.{none-ne-some, some-injective}
use dopacrm.Base.Integers.{ℤ, pos, leb_ℤ}
use dopacrm.Base.Scan.{trim, or_null, size, fits, fits-or_null}
use dopacrm.Auth.Types.{User}
use dopacrm.Subscriptions.Types.{PaymentMethod, cash}
use dopacrm.Payments.Section.{can_write}
use dopacrm.Server.Payments.{record_error, is_writer}

-- `ActiveSubContext`
pub record ActiveSub : Type 0 where
  pub subscription_id : Option String
  pub default_amount_cents : ℤ
  pub default_method : PaymentMethod

pub record Fields : Type 0 where
  pub amount : Option ℤ
  pub method : PaymentMethod
  pub paid_at : Option ℕ
  pub show_backdate : Bool
  pub link_sub : Bool
  pub notes : String

-- The effect of [activeSub]: the defaults of another subscription.
abbrev pub refresh : Option ActiveSub → Fields → Fields
refresh none d = d
refresh (some s) d = record d {
  amount = some s.default_amount_cents;
  method = s.default_method;
  link_sub = true;
}

abbrev pub first_fields : ℕ → Option ActiveSub → Fields
first_fields today s = refresh s (record {
  amount = none;
  method = cash;
  paid_at = some today;
  show_backdate = false;
  link_sub = false;
  notes = "";
})

-- `isBackdated`
abbrev pub is_backdated : ℕ → Option ℕ → Bool
is_backdated today none = false
is_backdated today (some paid) = ltb (paid + 30) today

-- `RecordPaymentRequest`
pub record RecordPayment : Type 0 where
  pub member_id : String
  pub amount_cents : ℤ
  pub payment_method : PaymentMethod
  pub paid_at : Option ℕ
  pub subscription_id : Option String
  pub notes : Option String
  pub backdate : Bool

abbrev linked : Bool → Option ActiveSub → Option String
linked link none = none
linked link (some s) = if link then s.subscription_id else none

abbrev pub request_of : String → ℕ → Option ActiveSub → Fields → ℤ → RecordPayment
request_of member today s d cents = record {
  member_id = member;
  amount_cents = cents;
  payment_method = d.method;
  paid_at = d.paid_at;
  subscription_id = linked d.link_sub s;
  notes = or_null (trim d.notes);
  backdate = is_backdated today d.paid_at;
}

-- `handleSubmit`, on the parsed amount
abbrev pub submit_cents : String → ℕ → Option ActiveSub → Fields → Option ℤ → Option RecordPayment
submit_cents member today s d none = none
submit_cents member today s d (some cents) =
    if leb_ℤ cents (pos 0) then none else some (request_of member today s d cents)

-- `handleSubmit`
abbrev pub submit_record : String → ℕ → Option ActiveSub → Fields → Option RecordPayment
submit_record member today s d = submit_cents member today s d d.amount

-- `min` and `max` of the date, which the browser holds against the form before it is submitted.
abbrev pub date_passes : ℕ → Bool → Option ℕ → Bool
date_passes today show_backdate none = true
date_passes today show_backdate (some paid) =
    leb paid today && (if show_backdate then true else leb today (paid + 30))

submit_cents-Positive :
    (member : String) (today : ℕ) (s : Option ActiveSub) (d : Fields) (amount : Option ℤ)
    (r : RecordPayment)
    → submit_cents member today s d amount ≡ some r
    → (cents : ℤ) × (leb_ℤ cents (pos 0) ≡ false) × (request_of member today s d cents ≡ r)
submit_cents-Positive member today s d none r e = absurd (none-ne-some r e)
submit_cents-Positive member today s d (some cents) r e = elim (Bool-cases (leb_ℤ cents (pos 0))) [
  | inl small ↦ absurd (none-ne-some r (rw small at e))
  | inr big ↦ (cents, big, some-injective _ r (rw big at e))
]

record_error-none :
    (caller : User) (today paid : ℕ) (cents : ℤ) (backdate : Bool) (notes : Option String)
    → fits 2000 notes ≡ true
    → is_writer caller ≡ true
    → leb_ℤ cents (pos 0) ≡ false
    → leb paid today ≡ true
    → backdate ≡ ltb (paid + 30) today
    → record_error caller today cents paid backdate notes ≡ none
unfolding record_error
record_error-none caller today paid cents backdate notes brief w positive past flag =
    rw brief (ground arith)

can_write-is_writer :
    (caller : User)
    → can_write (some caller) ≡ true
    → is_some caller.tenant_id ≡ true
    → is_writer caller ≡ true
unfolding can_write is_writer
can_write-is_writer caller w t = ground arith

date_passes-within :
    (today paid : ℕ) (show_backdate : Bool)
    → date_passes today show_backdate (some paid) ≡ true
    → (leb paid today ≡ true) × ((show_backdate ≡ true) ⊎ (today ≤ paid + 30))
date_passes-within today paid true h = (ground arith, inl refl)
date_passes-within today paid false h = (ground arith, inr (ground arith))

-- Whether the member and the subscription are of the gym is not considered. The user may record payments and belongs to
-- a gym, a day is chosen, the notes have at most 2000 characters without the space around them, and the browser lets the
-- form be submitted. Then the server raises no error over the user, the notes, the amount and the day that the dialog
-- sends, on the same day: the amount is positive, the day is not in the future, and a day more than 30 days back is
-- marked as such; the user has ticked the box for it.
pub submit_record-taken :
    (caller : User) (member : String) (today : ℕ) (s : Option ActiveSub) (d : Fields) (paid : ℕ)
    (r : RecordPayment)
    → can_write (some caller) ≡ true
    → is_some caller.tenant_id ≡ true
    → size (trim d.notes) ≤ 2000
    → d.paid_at ≡ some paid
    → date_passes today d.show_backdate d.paid_at ≡ true
    → submit_record member today s d ≡ some r
    → (record_error caller today r.amount_cents paid r.backdate r.notes ≡ none)
      × ((d.show_backdate ≡ true) ⊎ (today ≤ paid + 30))
submit_record-taken caller member today s d paid r w t brief day dates sent =
    let (cents, positive, same) = submit_cents-Positive member today s d d.amount r sent in
    let (past, ticked) = date_passes-within today paid d.show_backdate (rw day at dates) in
    (
      subst
          (λ (r : RecordPayment).
            record_error caller today r.amount_cents paid r.backdate r.notes ≡ none)
          same
          (record_error-none caller today paid cents (is_backdated today d.paid_at)
            (or_null (trim d.notes)) (fits-or_null 2000 (trim d.notes) brief)
            (can_write-is_writer caller w t) positive past (ap (is_backdated today) day)),
      ticked,
    )
