-- ===== src/Subscriptions/Dialogs.antt =====
-- The dialogs of frontend/src/features/subscriptions: the fields of each, and the request of its `handleSubmit`.
-- `none` stands for a submission that sends nothing.
use dopacrm.Base.{
  Bool, true, not, ◌&&◌, ◌||◌, String, Option, none, some, List, ◌==◌, string_eq, filter,
  if◌then◌else◌,
}
use dopacrm.Base.Scan.{trim, or_null}
use dopacrm.Subscriptions.Types.{
  PaymentMethod, cash, credit_card, standing_order, other, payment_method_eq, Subscription, Request,
}

-- SubscriptionEnrollDialog.tsx
pub record Enroll : Type 0 where
  pub plan_id : String
  pub started_at : String
  pub expires_at : String
  pub payment_method : PaymentMethod
  pub payment_detail : String

abbrev pub first_enroll : Enroll
first_enroll = record {
  plan_id = "";
  started_at = "";
  expires_at = "";
  payment_method = cash;
  payment_detail = "";
}

-- The controls of the dialog, with their new values.
pub data EnrollEdit : Type 0 where
  plan_chosen started_chosen expires_chosen detail_typed : String → EnrollEdit
  method_chosen : PaymentMethod → EnrollEdit

-- Whether the dialog shows the control.
unfoldable pub enroll_offers : Enroll → EnrollEdit → Bool
unfolding payment_method_eq
enroll_offers d (detail_typed v) =
    d.payment_method == other || not (d.payment_method == other) && d.payment_method == credit_card
enroll_offers d (expires_chosen v) = not (d.payment_method == standing_order)
enroll_offers d _ = true

abbrev pub edit_enroll : EnrollEdit → Enroll → Enroll
edit_enroll (plan_chosen v) d = record d { plan_id = v }
edit_enroll (started_chosen v) d = record d { started_at = v }
edit_enroll (expires_chosen v) d = record d { expires_at = v }
edit_enroll (detail_typed v) d = record d { payment_detail = v }
edit_enroll (method_chosen m) d = record d { payment_method = m }

unfoldable pub submit_enroll : String → Enroll → Option Request
unfolding string_eq payment_method_eq
submit_enroll member d =
    if d.plan_id == ""
    then none
    else some (
        Request.create (record {
          member_id = member;
          plan_id = d.plan_id;
          started_at = or_null d.started_at;
          expires_at = if d.payment_method == standing_order then none else or_null d.expires_at;
          payment_method = d.payment_method;
          payment_method_detail = or_null (trim d.payment_detail);
        }))

-- SubscriptionRenewDialog.tsx; `new_payment_method` is `none` for "".
pub record Renew : Type 0 where
  pub new_expires_at : String
  pub new_payment_method : Option PaymentMethod
  pub new_payment_detail : String

-- `methodChanged ? newPaymentMethod : null`
unfoldable pub changed_method : PaymentMethod → Option PaymentMethod → Option PaymentMethod
unfolding payment_method_eq
changed_method old none = none
changed_method old (some m) = if m == old then none else some m

abbrev detail_for : Option PaymentMethod → String → Option String
detail_for none detail = none
detail_for (some m) detail = or_null (trim detail)

unfoldable pub submit_renew : Subscription → Renew → Request
unfolding changed_method
submit_renew current d =
    let method = changed_method current.payment_method d.new_payment_method in
    Request.renew current.id (record {
      new_expires_at = or_null d.new_expires_at;
      new_payment_method = method;
      new_payment_method_detail = detail_for method d.new_payment_detail;
    })

-- SubscriptionFreezeDialog.tsx
abbrev pub submit_freeze : Subscription → String → Request
submit_freeze current frozen_until = Request.freeze current.id (or_null frozen_until)

-- A plan of `usePlans`, of which the dialogs show the id.
pub record PlanOption : Type 0 where
  pub id : String

-- SubscriptionChangePlanDialog.tsx: `candidatePlans`
unfoldable pub candidate_plans : List PlanOption → Subscription → List PlanOption
unfolding string_eq
candidate_plans plans current = filter (λ p. not (p.id == current.plan_id)) plans

unfoldable pub submit_change_plan : Subscription → String → String → Option Request
unfolding string_eq
submit_change_plan current new_plan effective_date =
    if new_plan == ""
    then none
    else some (Request.change_plan current.id new_plan (or_null effective_date))

-- SubscriptionCancelDialog.tsx
abbrev pub submit_cancel : Subscription → String → String → Request
submit_cancel current reason detail = Request.cancel current.id (or_null reason) (or_null detail)
