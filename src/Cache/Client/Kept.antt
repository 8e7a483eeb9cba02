-- ===== src/Cache/Client/Kept.antt =====
-- What the handlers of the mutations put into the cache.
use dopacrm.Base.{Bool-cases, inl, inr, ◌≡◌, refl, sym, ◌∙◌, true, none, some, List, [], ◌∷◌}
use dopacrm.Http.Json.{Json}
use dopacrm.Cache.Keys.{Key, part_eq}
use dopacrm.Cache.Queries.{Query, query_key}
use dopacrm.Cache.Mutations.{Mutation, on_success}
use dopacrm.Cache.Hooks.{is_set, Answer, Effect, invalidate, set_data}
use dopacrm.Cache.Client.{QueryClient, run_effects}
use dopacrm.Cache.Client.Laws.{keeps, keeps-data, Sets}

-- Each value that is set is the answer, under the key of a query.
abbrev Held : Answer → List Effect → Type 0
Held a [] = Unit
Held a (invalidate _ ∷ es) = Held a es
Held a (set_data k v ∷ es) = ((q : Query) × (query_key q ≡ k)) × (v ≡ a.json) × Held a es

Held-Sets :
    (a : Answer) (es : List Effect) (k : Key) (v : Json)
    → Held a es
    → Sets k v es
    → ((q : Query) × (query_key q ≡ k)) × (v ≡ a.json)
Held-Sets a [] k v h s = absurd s
Held-Sets a (invalidate _ ∷ es) k v h s = Held-Sets a es k v h s
Held-Sets a (set_data j w ∷ es) k v ((q, named), same, h) (inl (e, f)) =
    ((q, named ∙ e), sym f ∙ same)
Held-Sets a (set_data j w ∷ es) k v (_, _, h) (inr s) = Held-Sets a es k v h s

-- No call of a handler concerns what was set before it.
on_success-Held :
    (m : Mutation) (a : Answer) → Held a (on_success m a) × (keeps (on_success m a) ≡ true)
unfolding part_eq
on_success-Held (Mutation.create_member _) a = (tt, refl)
on_success-Held (Mutation.update_member _ _) a = (((Query.member a.id, refl), refl, tt), refl)
on_success-Held (Mutation.freeze_member _ _) a = (tt, refl)
on_success-Held (Mutation.unfreeze_member _) a = (tt, refl)
on_success-Held (Mutation.cancel_member _) a = (tt, refl)
on_success-Held (Mutation.create_class _) a = (tt, refl)
on_success-Held (Mutation.update_class _ _) a = (((Query.class a.id, refl), refl, tt), refl)
on_success-Held (Mutation.deactivate_class _) a = (tt, refl)
on_success-Held (Mutation.activate_class _) a = (tt, refl)
on_success-Held (Mutation.create_plan _) a = (tt, refl)
on_success-Held (Mutation.update_plan _ _) a = (((Query.plan a.id, refl), refl, tt), refl)
on_success-Held (Mutation.deactivate_plan _) a = (tt, refl)
on_success-Held (Mutation.activate_plan _) a = (tt, refl)
on_success-Held (Mutation.create_subscription _) a = (tt, refl)
on_success-Held (Mutation.freeze_subscription _ _) a = (tt, refl)
on_success-Held (Mutation.unfreeze_subscription _) a = (tt, refl)
on_success-Held (Mutation.renew_subscription _ _) a = (tt, refl)
on_success-Held (Mutation.change_plan _ _) a = (tt, refl)
on_success-Held (Mutation.cancel_subscription _ _) a = (tt, refl)
on_success-Held (Mutation.record_payment _) a = (tt, refl)
on_success-Held (Mutation.refund_payment _ _) a = (tt, refl)
on_success-Held (Mutation.record_entry _) a = (tt, refl)
on_success-Held (Mutation.undo_entry _ _) a = (tt, refl)
on_success-Held (Mutation.create_lead _) a = (tt, refl)
on_success-Held (Mutation.update_lead _ _) a = (((Query.lead a.id, refl), refl, tt), refl)
on_success-Held (Mutation.set_lead_status _ _) a = (((Query.lead a.id, refl), refl, tt), refl)
on_success-Held (Mutation.assign_lead _ _) a = (((Query.lead a.id, refl), refl, tt), refl)
on_success-Held (Mutation.convert_lead _ _) a = (((Query.lead a.id, refl), refl, tt), refl)
on_success-Held (Mutation.add_activity _ _) a = (tt, refl)
on_success-Held (Mutation.create_template _) a = (tt, refl)
on_success-Held (Mutation.update_template _ _) a = (tt, refl)
on_success-Held (Mutation.deactivate_template _) a = (tt, refl)
on_success-Held (Mutation.create_ad_hoc_session _) a = (tt, refl)
on_success-Held (Mutation.update_session _ _) a = (tt, refl)
on_success-Held (Mutation.cancel_session _ _) a = (tt, refl)
on_success-Held (Mutation.bulk_action _) a = (tt, refl)
on_success-Held (Mutation.update_tenant_features _ _) a =
    (((Query.tenant a.id, refl), refl, tt), refl)
on_success-Held (Mutation.create_coach _) a = (tt, refl)
on_success-Held (Mutation.update_coach _ _) a = (((Query.coach a.id, refl), refl, tt), refl)
on_success-Held (Mutation.freeze_coach _) a = (tt, refl)
on_success-Held (Mutation.unfreeze_coach _) a = (tt, refl)
on_success-Held (Mutation.cancel_coach _) a = (tt, refl)
on_success-Held (Mutation.invite_coach_user _ _) a = (((Query.coach a.id, refl), refl, tt), refl)
on_success-Held (Mutation.assign_coach_to_class _ _) a = (tt, refl)
on_success-Held (Mutation.update_class_coach_link _ _) a = (tt, refl)
on_success-Held (Mutation.delete_class_coach_link _) a = (tt, refl)
on_success-Held (Mutation.reassign_entry_coach _ _) a = (tt, refl)
on_success-Held (Mutation.create_tenant _) a = (tt, refl)
on_success-Held (Mutation.update_tenant _ _) a = (tt, refl)
on_success-Held (Mutation.suspend_tenant _) a = (tt, refl)
on_success-Held (Mutation.activate_tenant _) a = (tt, refl)
on_success-Held (Mutation.cancel_tenant _) a = (tt, refl)
on_success-Held (Mutation.upload_logo _) a = (tt, refl)
on_success-Held (Mutation.create_user none _) a = (tt, refl)
on_success-Held (Mutation.create_user (some tenant) _) a = elim (Bool-cases (is_set tenant)) [
  | inl e ↦ rw e (tt, refl)
  | inr e ↦ rw e (tt, refl)
]
on_success-Held (Mutation.update_user none _ _) a = (tt, refl)
on_success-Held (Mutation.update_user (some tenant) _ _) a = elim (Bool-cases (is_set tenant)) [
  | inl e ↦ rw e (tt, refl)
  | inr e ↦ rw e (tt, refl)
]
on_success-Held (Mutation.delete_user none _) a = (tt, refl)
on_success-Held (Mutation.delete_user (some tenant) _) a = elim (Bool-cases (is_set tenant)) [
  | inl e ↦ rw e (tt, refl)
  | inr e ↦ rw e (tt, refl)
]

-- What the handler of a mutation puts into the cache is the answer of the server, under the key of one of the queries,
-- and it is there, and current, when the handler is done: none of its later invalidations takes it back.
pub on_success-kept :
    (client : QueryClient) (m : Mutation) (a : Answer) (k : Key) (v : Json) (c : client.Cache)
    → Sets k v (on_success m a)
    → ((q : Query) × (query_key q ≡ k))
      × (v ≡ a.json)
      × (client.data_of k (run_effects client (on_success m a) c) ≡ some v)
      × (client.is_current k (run_effects client (on_success m a) c) ≡ true)
on_success-kept client m a k v c s =
    let (held, kept) = on_success-Held m a in
    let (key, same) = Held-Sets a (on_success m a) k v held s in
    let there = keeps-data client (on_success m a) k v c kept s in (key, same, there.0, there.1)
