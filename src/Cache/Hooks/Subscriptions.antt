-- ===== src/Cache/Hooks/Subscriptions.antt =====
-- frontend/src/features/subscriptions/hooks.ts
use dopacrm.Base.{
  Bool, true, false, String, Option, none, some, List, [], ◌∷◌, ◌||◌, ◌==◌, string_eq,
  if◌then◌else◌,
}
use dopacrm.Http.Json.{Json, Items, null, str, arr, nil, cons, property}
use dopacrm.Http.Fetch.{Result, ok, err, plain_error}
use dopacrm.Api.Subscriptions
use dopacrm.Api.Subscriptions.{SubscriptionFilters}
use dopacrm.Cache.Keys.{word, object, text, flag}
use dopacrm.Cache.Filters.{subscription_filters_object}
use dopacrm.Cache.Hooks.{QueryOptions, MutationOptions, Effect, invalidate, is_set}

-- The parameters `{ memberId }` of `listSubscriptions`.
abbrev of_member : String → SubscriptionFilters
of_member member_id = record {
  member_id = some member_id;
  status = none;
  plan_id = none;
  expires_before = none;
  expires_within_days = none;
  limit = none;
  offset = none;
}

is_live : Option Json → Bool
unfolding string_eq
is_live (some (str status)) = status == "active" || status == "frozen"
is_live _ = false

-- `all.find((s) => s.status === "active" || s.status === "frozen") ?? null`; reading a field of `null` is
-- a `TypeError`.
unfoldable pub first_live : Items → Result (Option Json)
unfolding is_live
first_live nil = ok (some null)
first_live (cons null rest) = err (plain_error "TypeError")
first_live (cons s rest) =
    let later = first_live rest in if is_live (property "status" s) then ok (some s) else later

unfoldable pub find_live : Result (Option Json) → Result (Option Json)
unfolding first_live
find_live (err e) = err e
find_live (ok (some (arr all))) = first_live all
find_live (ok _) = err (plain_error "TypeError")

abbrev pub use_subscriptions : SubscriptionFilters → QueryOptions
use_subscriptions filters = record {
  query_key = word "subscriptions" ∷ object (subscription_filters_object filters) ∷ [];
  query_fn = λ fetch. Subscriptions.list_subscriptions fetch filters;
  enabled = true;
}

abbrev pub use_subscription : String → QueryOptions
use_subscription id = record {
  query_key = word "subscriptions" ∷ word id ∷ [];
  query_fn = λ fetch. Subscriptions.get_subscription fetch id;
  enabled = is_set id;
}

abbrev pub use_subscription_events : String → QueryOptions
use_subscription_events id = record {
  query_key = word "subscriptions" ∷ word id ∷ word "events" ∷ [];
  query_fn = λ fetch. Subscriptions.list_subscription_events fetch id;
  enabled = is_set id;
}

abbrev pub use_current_subscription_for_member : String → QueryOptions
use_current_subscription_for_member member_id = record {
  query_key =
      word "subscriptions" ∷ object (("memberId", text member_id) ∷ ("live", flag true) ∷ []) ∷ [];
  query_fn = λ fetch. find_live (Subscriptions.list_subscriptions fetch (of_member member_id));
  enabled = is_set member_id;
}

abbrev pub use_subscription_history_for_member : String → QueryOptions
use_subscription_history_for_member member_id = record {
  query_key =
      word "subscriptions"
      ∷ object (("memberId", text member_id) ∷ ("history", flag true) ∷ [])
      ∷ [];
  query_fn = λ fetch. Subscriptions.list_subscriptions fetch (of_member member_id);
  enabled = is_set member_id;
}

abbrev pub invalidate_all : List Effect
invalidate_all = invalidate (word "subscriptions" ∷ []) ∷ invalidate (word "members" ∷ []) ∷ []

abbrev pub use_create_subscription : Json → MutationOptions
use_create_subscription body = record {
  mutation_fn = λ fetch. Subscriptions.create_subscription fetch body;
  on_success = λ _. invalidate_all;
}

abbrev pub use_freeze_subscription : String → Json → MutationOptions
use_freeze_subscription id body = record {
  mutation_fn = λ fetch. Subscriptions.freeze_subscription fetch id body;
  on_success = λ _. invalidate_all;
}

abbrev pub use_unfreeze_subscription : String → MutationOptions
use_unfreeze_subscription id = record {
  mutation_fn = λ fetch. Subscriptions.unfreeze_subscription fetch id;
  on_success = λ _. invalidate_all;
}

abbrev pub use_renew_subscription : String → Json → MutationOptions
use_renew_subscription id body = record {
  mutation_fn = λ fetch. Subscriptions.renew_subscription fetch id body;
  on_success = λ _. invalidate_all;
}

abbrev pub use_change_plan : String → Json → MutationOptions
use_change_plan id body = record {
  mutation_fn = λ fetch. Subscriptions.change_plan fetch id body;
  on_success = λ _. invalidate_all;
}

abbrev pub use_cancel_subscription : String → Json → MutationOptions
use_cancel_subscription id body = record {
  mutation_fn = λ fetch. Subscriptions.cancel_subscription fetch id body;
  on_success = λ _. invalidate_all;
}
