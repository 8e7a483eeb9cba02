-- ===== src/Cache/Client.antt =====
-- TanStack Query, as far as the hooks use it: a cache of answers by key, some of which are out of date.
pub mod Laws
pub mod Kept
use dopacrm.Base.{◌≡◌, ◌≢◌, Bool, true, false, Option, some, List, [], ◌∷◌}
use dopacrm.Http.Json.{Json}
use dopacrm.Cache.Keys.{Key, starts_with}
use dopacrm.Cache.Hooks.{Effect, invalidate, set_data}

-- `is_current` says that the cache has data for the key and that they have not been invalidated since they
-- came: such data are shown as they are until they reach `staleTime` (frontend/src/app/providers.tsx).
pub record QueryClient : Type 1 where
  pub Cache : Type 0
  pub data_of : Key → Cache → Option Json
  pub is_current : Key → Cache → Bool
  pub invalidated : Key → Cache → Cache
  pub updated : Key → Json → Cache → Cache
  -- An invalidation concerns the keys that start with its own, and keeps their data.
  pub invalidated-data_of : (p k : Key) (c : Cache) → data_of k (invalidated p c) ≡ data_of k c
  pub invalidated_inside :
      (p k : Key) (c : Cache) → starts_with p k ≡ true → is_current k (invalidated p c) ≡ false
  pub invalidated_outside :
      (p k : Key) (c : Cache)
      → starts_with p k ≡ false
      → is_current k (invalidated p c) ≡ is_current k c
  -- Data that are set are current, and concern no other key.
  pub updated-data_of : (k : Key) (v : Json) (c : Cache) → data_of k (updated k v c) ≡ some v
  pub updated-is_current : (k : Key) (v : Json) (c : Cache) → is_current k (updated k v c) ≡ true
  pub updated_other :
      (j k : Key) (v : Json) (c : Cache)
      → j ≢ k
      → (data_of k (updated j v c) ≡ data_of k c) × (is_current k (updated j v c) ≡ is_current k c)

module _ (client : QueryClient) where
  unfoldable pub run_effect : Effect → client.Cache → client.Cache
  run_effect (invalidate p) c = client.invalidated p c
  run_effect (set_data k v) c = client.updated k v c

  -- The calls of a handler, one after the other.
  unfoldable pub run_effects : List Effect → client.Cache → client.Cache
  unfolding run_effect
  run_effects [] c = c
  run_effects (e ∷ es) c = run_effects es (run_effect e c)
