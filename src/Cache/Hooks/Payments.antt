-- ===== src/Cache/Hooks/Payments.antt =====
-- frontend/src/features/payments/hooks.ts
use dopacrm.Base.{true, String, List, [], ◌∷◌}
use dopacrm.Http.Json.{Json}
use dopacrm.Api.Payments
use dopacrm.Api.Payments.{PaymentFilters}
use dopacrm.Cache.Keys.{word, object}
use dopacrm.Cache.Filters.{payment_filters_object}
use dopacrm.Cache.Hooks.{QueryOptions, MutationOptions, Effect, invalidate, is_set}

abbrev pub use_payments : PaymentFilters → QueryOptions
use_payments filters = record {
  query_key = word "payments" ∷ object (payment_filters_object filters) ∷ [];
  query_fn = λ fetch. Payments.list_payments fetch filters;
  enabled = true;
}

abbrev pub use_payment : String → QueryOptions
use_payment id = record {
  query_key = word "payments" ∷ word id ∷ [];
  query_fn = λ fetch. Payments.get_payment fetch id;
  enabled = is_set id;
}

abbrev pub use_member_payments : String → QueryOptions
use_member_payments member_id = record {
  query_key = word "payments" ∷ word "member" ∷ word member_id ∷ [];
  query_fn = λ fetch. Payments.list_member_payments fetch member_id;
  enabled = is_set member_id;
}

abbrev pub use_revenue_summary : QueryOptions
use_revenue_summary = record {
  query_key = word "payments" ∷ word "revenue-summary" ∷ [];
  query_fn = λ fetch. Payments.get_revenue_summary fetch;
  enabled = true;
}

abbrev pub invalidate_all : List Effect
invalidate_all = invalidate (word "payments" ∷ []) ∷ []

abbrev pub use_record_payment : Json → MutationOptions
use_record_payment body = record {
  mutation_fn = λ fetch. Payments.record_payment fetch body;
  on_success = λ _. invalidate_all;
}

abbrev pub use_refund_payment : String → Json → MutationOptions
use_refund_payment id body = record {
  mutation_fn = λ fetch. Payments.refund_payment fetch id body;
  on_success = λ _. invalidate_all;
}
