-- ===== src/Payments/Tests.antt =====
-- Payments and their refunds, and the theorems on them.
use dopacrm.Base.{
  ◌≡◌, refl, ◌≢◌, ◌↔◌, ◌⊎◌, ◌≤◌, true, false, String, none, some, List, [], ◌∷◌, string_eq,
  option_eq, ==_ne, arith,
}
use dopacrm.Base.Scan.{trim, or_null}
use dopacrm.Auth.Types.{sales, role_eq, User}
use dopacrm.Subscriptions.Types.{cash}
use dopacrm.Server.Payments.{record_error}
use dopacrm.Payments.Section.{can_write, add_payment, totals, net}
use dopacrm.Payments.Record.{Fields, request_of, submit_record-taken}
use dopacrm.Base.Integers.{ℤ, pos, negsuc}
use dopacrm.Payments.Refunds.{Payment, is_refund, is_fully_refunded, submit}
use dopacrm.Payments.Refunds.Laws.{is_fully_refunded-submit}

abbrev monthly : Payment
monthly = record { id = "p1"; amount_cents = pos 25000; refund_of_payment_id = none }

abbrev half : Payment
half = record { id = "p2"; amount_cents = negsuc 12499; refund_of_payment_id = some "p1" }

abbrev ledger : List Payment
ledger = half ∷ monthly ∷ []

named : ◌≢◌ {A = String} "p1" ""
unfolding string_eq
named = ==_ne {A = String} ⦃e = string_eq⦄ "p1" "" refl

is_fully_refunded-submit_example :
    (is_fully_refunded ledger monthly ≡ true)
    ↔ ((cents : ℤ) → submit ledger monthly (some cents) ≡ none)
unfolding is_refund
is_fully_refunded-submit_example = is_fully_refunded-submit ledger monthly 24999 named refl refl

totals_of_ledger : net (totals ledger) ≡ pos 12500
unfolding add_payment
totals_of_ledger = refl

abbrev seller : User
seller = record {
  id = "u1";
  email = "front@gym";
  first_name = none;
  last_name = none;
  phone = none;
  oauth_provider = none;
  is_active = true;
  role = sales;
  tenant_id = some "t1";
  tenant_features_enabled = [];
}

-- The fee of a drop-in, paid five weeks ago.
abbrev late : Fields
late = record {
  amount = some (pos 5000);
  method = cash;
  paid_at = some 965;
  show_backdate = true;
  link_sub = false;
  notes = "";
}

submit_record-taken_example :
    (record_error seller 1000 (pos 5000) 965 true none ≡ none) × ((true ≡ true) ⊎ (1000 ≤ 995))
unfolding can_write role_eq trim or_null
submit_record-taken_example =
    submit_record-taken seller "m1" 1000 none late 965 (request_of "m1" 1000 none late (pos 5000))
      refl refl (omega arith) refl refl refl
