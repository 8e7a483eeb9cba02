-- ===== src/Api/Payments.antt =====
-- frontend/src/features/payments/api.ts
use dopacrm.Base.{Bool, String, ◌<>◌, Option, some, [], ◌∷◌, ℕ}
use dopacrm.Http.Json.{Json}
use dopacrm.Http.Fetch.{Fetch, Result}
use dopacrm.Http.Client.{get, post}
use dopacrm.Api.Params.{Params, set_text, set_number, set_false, query, path}

pub record PaymentFilters : Type 0 where
  pub member_id : Option String
  pub subscription_id : Option String
  pub paid_from : Option String
  pub paid_to : Option String
  pub method : Option String
  pub include_refunds : Option Bool
  pub limit : Option ℕ
  pub offset : Option ℕ

abbrev pub payment_filters_params : PaymentFilters → Params
payment_filters_params f = set_number "offset" f.offset (
    set_number "limit" f.limit (
      set_false "include_refunds" f.include_refunds (
        set_text "method" f.method (
          set_text "paid_to" f.paid_to (
            set_text "paid_from" f.paid_from (
              set_text "subscription_id" f.subscription_id
                (set_text "member_id" f.member_id [])))))))

module _ (fetch : Fetch) where
  unfoldable pub list_payments : PaymentFilters → Result (Option Json)
  list_payments filters =
      get fetch (path ("payments" ∷ []) <> query (payment_filters_params filters))

  unfoldable pub get_payment : String → Result (Option Json)
  get_payment id = get fetch (path ("payments" ∷ id ∷ []))

  unfoldable pub record_payment : Json → Result (Option Json)
  record_payment body = post fetch (path ("payments" ∷ [])) (some body)

  unfoldable pub refund_payment : String → Json → Result (Option Json)
  refund_payment id body = post fetch (path ("payments" ∷ id ∷ "refund" ∷ [])) (some body)

  unfoldable pub list_member_payments : String → Result (Option Json)
  list_member_payments member_id = get fetch (path ("members" ∷ member_id ∷ "payments" ∷ []))

  unfoldable pub get_revenue_summary : Result (Option Json)
  get_revenue_summary = get fetch (path ("dashboard" ∷ "revenue" ∷ []))
