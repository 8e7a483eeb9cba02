-- ===== src/Leads/Types.antt =====
-- Leads, as far as the board and the page of a lead read them, and the request that changes a status. The
-- types are those of frontend/src/lib/api-schema.ts.
use dopacrm.Base.{String, Option, Eq}

pub data LeadStatus : Type 0 where
  new contacted trial converted lost : LeadStatus

unfoldable pub LeadStatus-discrete : Discrete LeadStatus
LeadStatus-discrete = hlevel

instance unfoldable pub status_eq : Eq LeadStatus
unfolding LeadStatus-discrete
status_eq = record { dec = LeadStatus-discrete }

pub record Lead : Type 0 where
  pub id : String
  pub status : LeadStatus

-- The variables of `setStatus.mutate`: `{ id, data: { new_status, lost_reason } }`.
pub record StatusRequest : Type 0 where
  pub id : String
  pub new_status : LeadStatus
  pub lost_reason : Option String
