-- ===== src/Cache/Hooks.antt =====
-- The hooks of the `hooks.ts` files under frontend/src/features: what each hands to `useQuery` or to
-- `useMutation`.
pub mod Members
pub mod Classes
pub mod Plans
pub mod Subscriptions
pub mod Payments
pub mod Attendance
pub mod Leads
pub mod Schedule
pub mod Coaches
pub mod Tenants
pub mod Users
pub mod Stats
use dopacrm.Base.{Bool, not, String, Option, List, ◌==◌, string_eq}
use dopacrm.Http.Json.{Json}
use dopacrm.Http.Fetch.{Fetch, Result}
use dopacrm.Cache.Keys.{Key}

-- The argument of `useQuery`; `enabled` is true where it is left out.
pub record QueryOptions : Type 0 where
  pub query_key : Key
  pub query_fn : Fetch → Result (Option Json)
  pub enabled : Bool

-- What the handlers read of an answer: its `id`, its `tenant_id`, and the whole of it as it goes into the
-- cache. For `useConvertLead` it is the `lead` of the answer.
pub record Answer : Type 0 where
  pub id : String
  pub tenant_id : String
  pub json : Json

pub data Effect : Type 0 where
  -- `qc.invalidateQueries({ queryKey })`
  invalidate : Key → Effect
  -- `qc.setQueryData(key, value)`
  set_data : Key → Json → Effect

-- The argument of `useMutation`, at the variables of one call of `mutate`. The calls of `onSuccess` are
-- listed in their order.
pub record MutationOptions : Type 0 where
  pub mutation_fn : Fetch → Result (Option Json)
  pub on_success : Answer → List Effect

-- `!!id`
unfoldable pub is_set : String → Bool
unfolding string_eq
is_set id = not (id == "")
