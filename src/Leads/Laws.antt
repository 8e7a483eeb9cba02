-- ===== src/Leads/Laws.antt =====
-- What the page of a lead and the board send, against the transitions that the server takes.
use dopacrm.Base.{
  ◌≡◌, refl, Bool, true, false, not, ◌&&◌, ◌||◌, String, Option, some, ◌==◌, inl, inr, Bool-cases,
  arith, sym, ap, ◌⊎◌,
}
use mathlib.Core.Path.{subst}
use mathlib.Core.Option.{none-ne-some, some-injective}
use dopacrm.Auth.Types.{User}
use dopacrm.Leads.Types.{
  LeadStatus, new, contacted, trial, converted, lost, status_eq, Lead, StatusRequest,
}
use dopacrm.Leads.Kanban.{Board, drop_lead}
use dopacrm.Leads.Detail.{
  can_mutate, is_open, mark_lost, reopen, shows_button, handle_lost, handle_reopen,
}
use dopacrm.Server.Leads.{can_transition_to}

lost-allowed : (s : LeadStatus) → can_transition_to s lost ≡ is_open s
unfolding can_transition_to is_open status_eq
lost-allowed new = refl
lost-allowed contacted = refl
lost-allowed trial = refl
lost-allowed converted = refl
lost-allowed lost = refl

reopen-allowed : (s : LeadStatus) → (s == lost) ≡ true → can_transition_to s contacted ≡ true
unfolding can_transition_to status_eq
reopen-allowed new h = ground arith
reopen-allowed contacted h = ground arith
reopen-allowed trial h = ground arith
reopen-allowed converted h = ground arith
reopen-allowed lost h = refl

-- To a user who may change leads, the page of a lead offers to mark it as lost exactly where the server takes
-- that, and to reopen it only where the server takes that.
pub shows_button-can_transition_to :
    (user : Option User) (editing : Bool) (lead : Lead) (reason : String)
    → can_mutate user ≡ true
    → (shows_button user editing lead mark_lost
        ≡ can_transition_to lead.status (handle_lost lead reason).new_status)
      × ((shows_button user editing lead reopen ≡ false)
          ⊎ (can_transition_to lead.status (handle_reopen lead).new_status ≡ true))
unfolding shows_button
shows_button-can_transition_to user editing lead reason may = (
  rw may (sym (lost-allowed lead.status)),
  elim (Bool-cases (shows_button user editing lead reopen)) [
    | inl offered ↦ inr (reopen-allowed lead.status (ground (arith, offered)))
    | inr hidden ↦ inl hidden
  ],
)

-- The drops that the board sends although the server refuses them: back to `new`, out of `converted`, and from
-- `lost` to `trial`.
abbrev pub is_refused : LeadStatus → LeadStatus → Bool
is_refused s t = t == new || s == converted || s == lost && t == trial

drop-refused :
    (s t : LeadStatus)
    → (s == t) ≡ false
    → (t == converted) ≡ false
    → (t == lost) ≡ false
    → can_transition_to s t ≡ not (is_refused s t)
unfolding can_transition_to status_eq
drop-refused new new _ _ _ = refl
drop-refused contacted new _ _ _ = refl
drop-refused trial new _ _ _ = refl
drop-refused converted new _ _ _ = refl
drop-refused lost new _ _ _ = refl
drop-refused new contacted _ _ _ = refl
drop-refused contacted contacted h _ _ = ground arith
drop-refused trial contacted _ _ _ = refl
drop-refused converted contacted _ _ _ = refl
drop-refused lost contacted _ _ _ = refl
drop-refused new trial _ _ _ = refl
drop-refused contacted trial _ _ _ = refl
drop-refused trial trial h _ _ = ground arith
drop-refused converted trial _ _ _ = refl
drop-refused lost trial _ _ _ = refl
drop-refused s converted _ h _ = ground arith
drop-refused s lost _ _ h = ground arith

-- A drop that sends a request at once: the server takes it, unless it is one of the three kinds that the
-- server refuses.
pub drop_lead-can_transition_to :
    (lead : Lead) (target : LeadStatus) (b c : Board) (r : StatusRequest)
    → drop_lead lead target b ≡ (c, some r)
    → can_transition_to lead.status r.new_status ≡ not (is_refused lead.status r.new_status)
unfolding drop_lead
drop_lead-can_transition_to lead target b c r h = elim (Bool-cases (lead.status == target)) [
  | inl e ↦ absurd (none-ne-some r (rw e at (ap (λ o. o.1) h)))
  | inr differ ↦ elim (Bool-cases (target == converted)) [
    | inl e ↦ absurd (none-ne-some r (rw (differ, e) at (ap (λ o. o.1) h)))
    | inr fresh ↦ elim (Bool-cases (target == lost)) [
      | inl e ↦ absurd (none-ne-some r (rw (differ, fresh, e) at (ap (λ o. o.1) h)))
      | inr e ↦
          let same : target ≡ r.new_status =
            ap (λ r. r.new_status)
              (some-injective _ _ (rw (differ, fresh, e) at (ap (λ o. o.1) h))) in
          subst (λ t. can_transition_to lead.status t ≡ not (is_refused lead.status t)) same
            (drop-refused lead.status target differ fresh e)
    ]
  ]
]
