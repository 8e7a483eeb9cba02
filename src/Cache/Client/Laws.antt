-- ===== src/Cache/Client/Laws.antt =====
-- What a handler's calls leave of the data under one key.
use dopacrm.Base.{
  ◌≡◌, refl, sym, ◌∙◌, ◌⊎◌, inl, inr, Bool, true, false, not, ◌&&◌, ◌||◌, some, List, [], ◌∷◌, ◌==◌,
  string_eq, arith,
}
use dopacrm.Http.Json.{Json}
use dopacrm.Cache.Keys.{Key, part_eq, key_eq, starts_with}
use dopacrm.Cache.Hooks.{Effect, invalidate, set_data}
use dopacrm.Cache.Client.{QueryClient, run_effects}

-- Whether one of the calls concerns the key.
abbrev pub concerns : List Effect → Key → Bool
concerns [] k = false
concerns (invalidate p ∷ es) k = starts_with p k || concerns es k
concerns (set_data j _ ∷ es) k = j == k || concerns es k

-- No call concerns a key that was set before it.
abbrev pub keeps : List Effect → Bool
keeps [] = true
keeps (invalidate _ ∷ es) = keeps es
keeps (set_data k _ ∷ es) = not (concerns es k) && keeps es

-- One of the calls sets the key to the value.
abbrev pub Sets : Key → Json → List Effect → Type 0
Sets k v [] = ⊥
Sets k v (invalidate _ ∷ es) = Sets k v es
Sets k v (set_data j w ∷ es) = ((j ≡ k) × (w ≡ v)) ⊎ Sets k v es

module _ (client : QueryClient) where
  -- Two caches hold the same under a key.
  abbrev pub Same : Key → client.Cache → client.Cache → Type 0
  Same k c d =
      (client.data_of k c ≡ client.data_of k d) × (client.is_current k c ≡ client.is_current k d)

  unconcerned-Same :
      (es : List Effect) (k : Key) (c : client.Cache)
      → concerns es k ≡ false
      → Same k (run_effects client es c) c
  unfolding run_effects
  unconcerned-Same [] k c h = (refl, refl)
  unconcerned-Same (invalidate p ∷ es) k c h =
      let later = unconcerned-Same es k (client.invalidated p c) (ground arith) in
      (
        later.0 ∙ client.invalidated-data_of p k c,
        later.1 ∙ client.invalidated_outside p k c (ground arith),
      )
  unconcerned-Same (set_data j v ∷ es) k c h =
      let later = unconcerned-Same es k (client.updated j v c) (ground arith) in
      let other = client.updated_other j k v c (ground arith) in
      (later.0 ∙ other.0, later.1 ∙ other.1)

  -- Every value that is set stays, and is current: no later call concerns its key.
  pub keeps-data :
      (es : List Effect) (k : Key) (v : Json) (c : client.Cache)
      → keeps es ≡ true
      → Sets k v es
      → (client.data_of k (run_effects client es c) ≡ some v)
        × (client.is_current k (run_effects client es c) ≡ true)
  unfolding run_effects
  keeps-data [] k v c h s = absurd s
  keeps-data (invalidate p ∷ es) k v c h s = keeps-data es k v _ h s
  keeps-data (set_data j w ∷ es) k v c h (inr s) = keeps-data es k v _ (ground arith) s
  keeps-data (set_data j w ∷ es) k v c h (inl (e, f)) =
      let same = unconcerned-Same es k (client.updated j w c) (rw (sym e) (ground arith)) in
      (
        same.0 ∙ rw (e, f) (client.updated-data_of k v c),
        same.1 ∙ rw (e, f) (client.updated-is_current k v c),
      )
