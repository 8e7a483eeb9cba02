-- ===== src/Subscriptions/Types.antt =====
-- The types of the feature (frontend/src/features/subscriptions/types.ts), which
-- frontend/src/lib/api-schema.ts declares. Dates are texts.
use dopacrm.Base.{String, Option, Eq}
use dopacrm.Base.Integers.{ℤ}

pub data SubscriptionStatus : Type 0 where
  active frozen expired cancelled replaced : SubscriptionStatus

pub data PaymentMethod : Type 0 where
  cash credit_card standing_order other : PaymentMethod

SubscriptionStatus-discrete : Discrete SubscriptionStatus
SubscriptionStatus-discrete = hlevel

PaymentMethod-discrete : Discrete PaymentMethod
PaymentMethod-discrete = hlevel

instance unfoldable pub subscription_status_eq : Eq SubscriptionStatus
unfolding SubscriptionStatus-discrete
subscription_status_eq = record { dec = SubscriptionStatus-discrete }

instance unfoldable pub payment_method_eq : Eq PaymentMethod
unfolding PaymentMethod-discrete
payment_method_eq = record { dec = PaymentMethod-discrete }

pub record Subscription : Type 0 where
  pub id : String
  pub plan_id : String
  pub status : SubscriptionStatus
  pub price_cents : ℤ
  pub currency : String
  pub payment_method : PaymentMethod
  pub payment_method_detail : Option String
  pub started_at : String
  pub expires_at : Option String
  pub frozen_until : Option String
  pub expired_at : Option String
  pub cancelled_at : Option String
  pub replaced_at : Option String

-- `CreateSubscriptionRequest`
pub record CreateRequest : Type 0 where
  pub member_id : String
  pub plan_id : String
  pub started_at : Option String
  pub expires_at : Option String
  pub payment_method : PaymentMethod
  pub payment_method_detail : Option String

-- `RenewSubscriptionRequest`
pub record RenewRequest : Type 0 where
  pub new_expires_at : Option String
  pub new_payment_method : Option PaymentMethod
  pub new_payment_method_detail : Option String

-- What the section sends: to enroll the member, or about a subscription, by its id.
pub data Request : Type 0 where
  create : CreateRequest → Request
  -- with `frozen_until`
  freeze : String → Option String → Request
  unfreeze : String → Request
  renew : String → RenewRequest → Request
  -- with `new_plan_id` and `effective_date`
  change_plan : String → String → Option String → Request
  -- with `reason` and `detail`
  cancel : String → Option String → Option String → Request
