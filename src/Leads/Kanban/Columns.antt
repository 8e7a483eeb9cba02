-- ===== src/Leads/Kanban/Columns.antt =====
-- What the columns of the board show.
use dopacrm.Base.{
  ◌≡◌, refl, sym, ◌∙◌, Bool, true, false, List, [], ◌∷◌, ◌++◌, ◌==◌, filter, length, ℕ, ◌+◌,
  Bool-cases, inl, inr, arith,
}
use mathlib.Core.List.{append-nil, append_assoc}
use dopacrm.Leads.Types.{LeadStatus, new, contacted, trial, converted, lost, status_eq, Lead}
use dopacrm.Leads.Kanban.{Buckets, push, push_all, buckets, no_leads}

push_all-filter :
    (leads : List Lead) (map : Buckets) (status : LeadStatus)
    → push_all leads map status ≡ map status ++ filter (λ lead. lead.status == status) leads
push_all-filter [] map status = sym (append-nil (map status))
push_all-filter (lead ∷ leads) map status = elim (Bool-cases (lead.status == status)) [
  | inl e ↦
      push_all-filter leads (push lead map) status
      ∙ rw e (append_assoc (map status) (lead ∷ []) (filter (λ l. l.status == status) leads))
  | inr e ↦ push_all-filter leads (push lead map) status ∙ rw e refl
]

-- A column shows exactly the leads of its status, in the order in which they came.
pub buckets-filter :
    (leads : List Lead) (status : LeadStatus)
    → buckets leads status ≡ filter (λ lead. lead.status == status) leads
buckets-filter leads status = push_all-filter leads no_leads status

-- The leads that a column shows.
abbrev pub column_size : List Lead → LeadStatus → ℕ
column_size leads status = length (buckets leads status)

bit : Bool → ℕ
bit true = 1
bit false = 0

length-filter :
    (lead : Lead) (leads : List Lead) (status : LeadStatus)
    → length (filter (λ l. l.status == status) (lead ∷ leads))
      ≡ bit (lead.status == status) + length (filter (λ l. l.status == status) leads)
unfolding bit
length-filter lead leads status = ground (arith, Bool-cases (lead.status == status))

bits :
    (s : LeadStatus)
    → bit (s == new)
        + bit (s == contacted)
        + bit (s == trial)
        + bit (s == converted)
        + bit (s == lost)
      ≡ 1
unfolding status_eq bit
bits new = refl
bits contacted = refl
bits trial = refl
bits converted = refl
bits lost = refl

abbrev count : List Lead → LeadStatus → ℕ
count leads status = length (filter (λ l. l.status == status) leads)

count-total :
    (leads : List Lead)
    → count leads new
        + count leads contacted
        + count leads trial
        + count leads converted
        + count leads lost
      ≡ length leads
count-total [] = refl
count-total (lead ∷ leads) = omega (
  arith,
  count-total leads,
  bits lead.status,
  length-filter lead leads new,
  length-filter lead leads contacted,
  length-filter lead leads trial,
  length-filter lead leads converted,
  length-filter lead leads lost,
)

-- Each lead stands in one column: the columns together are as long as the list.
pub column_size-total :
    (leads : List Lead)
    → column_size leads new
        + column_size leads contacted
        + column_size leads trial
        + column_size leads converted
        + column_size leads lost
      ≡ length leads
column_size-total leads =
    rw
      (
        buckets-filter leads new,
        buckets-filter leads contacted,
        buckets-filter leads trial,
        buckets-filter leads converted,
        buckets-filter leads lost,
      )
      (count-total leads)
