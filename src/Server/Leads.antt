-- ===== src/Server/Leads.antt =====
-- Which changes of a lead's status the server takes: `_ALLOWED_TRANSITIONS` and `can_transition_to` of
-- backend/app/domain/entities/lead.py.
use dopacrm.Base.{Bool, false, List, [], ◌∷◌, ◌==◌, includes, if◌then◌else◌}
use dopacrm.Leads.Types.{LeadStatus, new, contacted, trial, converted, lost, status_eq}

abbrev pub allowed_transitions : LeadStatus → List LeadStatus
allowed_transitions new = contacted ∷ trial ∷ lost ∷ []
allowed_transitions contacted = trial ∷ lost ∷ []
allowed_transitions trial = contacted ∷ lost ∷ []
allowed_transitions converted = []
allowed_transitions lost = contacted ∷ []

unfoldable pub can_transition_to : LeadStatus → LeadStatus → Bool
unfolding status_eq
can_transition_to status new_status =
    if new_status == converted
    then false
    else if new_status == status
    then false
    else includes (allowed_transitions status) new_status
