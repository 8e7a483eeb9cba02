-- ===== src/Api/Subscriptions.antt =====
-- frontend/src/features/subscriptions/api.ts
use dopacrm.Base.{String, ◌<>◌, Option, none, some, [], ◌∷◌, ℕ}
use dopacrm.Http.Json.{Json}
use dopacrm.Http.Fetch.{Fetch, Result}
use dopacrm.Http.Client.{get, post}
use dopacrm.Api.Params.{Params, set_text, set_number, query, path}

pub record SubscriptionFilters : Type 0 where
  pub member_id : Option String
  pub status : Option String
  pub plan_id : Option String
  pub expires_before : Option String
  pub expires_within_days : Option ℕ
  pub limit : Option ℕ
  pub offset : Option ℕ

abbrev pub subscription_filters_params : SubscriptionFilters → Params
subscription_filters_params f = set_number "offset" f.offset (
    set_number "limit" f.limit (
      set_number "expires_within_days" f.expires_within_days (
        set_text "expires_before" f.expires_before (
          set_text "plan_id" f.plan_id
            (set_text "status" f.status (set_text "member_id" f.member_id []))))))

module _ (fetch : Fetch) where
  unfoldable pub list_subscriptions : SubscriptionFilters → Result (Option Json)
  list_subscriptions filters =
      get fetch (path ("subscriptions" ∷ []) <> query (subscription_filters_params filters))

  unfoldable pub get_subscription : String → Result (Option Json)
  get_subscription id = get fetch (path ("subscriptions" ∷ id ∷ []))

  unfoldable pub list_subscription_events : String → Result (Option Json)
  list_subscription_events id = get fetch (path ("subscriptions" ∷ id ∷ "events" ∷ []))

  unfoldable pub create_subscription : Json → Result (Option Json)
  create_subscription body = post fetch (path ("subscriptions" ∷ [])) (some body)

  unfoldable pub freeze_subscription : String → Json → Result (Option Json)
  freeze_subscription id body = post fetch (path ("subscriptions" ∷ id ∷ "freeze" ∷ [])) (some body)

  unfoldable pub unfreeze_subscription : String → Result (Option Json)
  unfreeze_subscription id = post fetch (path ("subscriptions" ∷ id ∷ "unfreeze" ∷ [])) none

  unfoldable pub renew_subscription : String → Json → Result (Option Json)
  renew_subscription id body = post fetch (path ("subscriptions" ∷ id ∷ "renew" ∷ [])) (some body)

  unfoldable pub change_plan : String → Json → Result (Option Json)
  change_plan id body = post fetch (path ("subscriptions" ∷ id ∷ "change-plan" ∷ [])) (some body)

  unfoldable pub cancel_subscription : String → Json → Result (Option Json)
  cancel_subscription id body = post fetch (path ("subscriptions" ∷ id ∷ "cancel" ∷ [])) (some body)
