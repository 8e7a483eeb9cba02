-- ===== src/Leads/Tests.antt =====
-- Runs of the board, and the theorems on them.
use dopacrm.Base.{◌≡◌, refl, true, false, Option, none, some, List, [], ◌∷◌, All, string_eq, ◌⊎◌}
use dopacrm.Auth.Types.{User, owner, role_eq}
use dopacrm.Leads.Types.{new, trial, lost, status_eq, Lead, StatusRequest}
use dopacrm.Leads.Kanban.{
  Board, initial, drop_lead, drag_started, dropped, confirmed, handle_drop, confirm_lost, handle,
  Reach, opened, moved, sent,
}
use dopacrm.Leads.Kanban.Laws.{Asked, Reach-Asked}
use dopacrm.Leads.Detail.{mark_lost, reopen, shows_button, handle_lost, handle_reopen, can_mutate}
use dopacrm.Leads.Laws.{shows_button-can_transition_to}
use dopacrm.Server.Leads.{can_transition_to}

abbrev dana : Lead
dana = record { id = "l1"; status = trial }

abbrev dragging : Board
dragging = record initial { drag_lead = some dana }

abbrev asking : Board
asking = record dragging { pending_lost = some dana }

abbrev lost_request : StatusRequest
lost_request = record { id = "l1"; new_status = lost; lost_reason = some "price" }

dragged : Reach true (drag_started dana ∷ []) dragging []
unfolding handle
dragged = moved opened (drag_started dana) refl

asked : Reach true (dropped lost ∷ drag_started dana ∷ []) asking []
unfolding handle handle_drop drop_lead status_eq
asked = moved dragged (dropped lost) refl

confirmed_run :
    Reach true
      (confirmed "price" ∷ dropped lost ∷ drag_started dana ∷ [])
      asking
      (lost_request ∷ [])
unfolding handle confirm_lost string_eq
confirmed_run = sent asked (confirmed "price") refl

Reach-Asked_example :
    All (Asked (confirmed "price" ∷ dropped lost ∷ drag_started dana ∷ [])) (lost_request ∷ [])
Reach-Asked_example = Reach-Asked confirmed_run

ignored : Reach false (dropped lost ∷ drag_started dana ∷ []) initial []
unfolding handle handle_drop
ignored = moved (moved opened (drag_started dana) refl) (dropped lost) refl

abbrev the_owner : Option User
the_owner = some (record {
  id = "u1";
  email = "u1@gym.example";
  first_name = none;
  last_name = none;
  phone = none;
  oauth_provider = none;
  is_active = true;
  role = owner;
  tenant_id = some "t1";
  tenant_features_enabled = [];
})

shows_button-can_transition_to_example :
    (shows_button the_owner false dana mark_lost
      ≡ can_transition_to trial (handle_lost dana "price").new_status)
    × ((shows_button the_owner false dana reopen ≡ false)
        ⊎ (can_transition_to trial (handle_reopen dana).new_status ≡ true))
unfolding can_mutate role_eq
shows_button-can_transition_to_example =
    shows_button-can_transition_to the_owner false dana "price" refl

abbrev reset_request : StatusRequest
reset_request = record { id = "l1"; new_status = new; lost_reason = none }

abbrev two_leads : List Lead
two_leads = dana ∷ record { id = "l2"; status = new } ∷ []
