-- ===== src/CheckIn/Cards.antt =====
-- What the check-in page says of a member's quota: `ClassGrid` and `MemberSummaryStrip` of
-- frontend/src/features/attendance/CheckInPage.tsx.
pub mod Laws
use dopacrm.Base.{
  Bool, true, false, String, Option, none, some, List, [], ◌∷◌, ℕ, ◌==◌, string_eq, map, get_or,
  is_some, if◌then◌else◌,
}
use dopacrm.CheckIn.Quota.{SummaryItem, period_or_none, find_quota_for_class}
use dopacrm.CheckIn.Workspace.{GymClass}

-- `new Map(…).get(k)`, where a later pair replaces an earlier one
abbrev pub map_get : {V : Type 0} → String → List (String × V) → Option V
map_get k [] = none
map_get k ((j, v) ∷ m) =
    let rest = map_get k m in if is_some rest then rest else if j == k then some v else none

-- The text under the name of a class.
pub data CardLabel : Type 0 where
  not_in_plan no_limit full blank : CardLabel
  left : ℕ → CardLabel

-- Gray, green or amber.
pub data CardColor : Type 0 where
  uncovered allowed at_quota : CardColor

abbrev label_remaining : Bool → Option ℕ → CardLabel
label_remaining may none = blank
label_remaining may (some remaining) = if may then left remaining else full

abbrev label_covered : SummaryItem → CardLabel
label_covered q =
    if get_or q.reset_period "" == "unlimited"
    then no_limit
    else label_remaining q.allowed q.remaining

unfoldable pub card_label : Option SummaryItem → CardLabel
unfolding string_eq
card_label none = not_in_plan
card_label (some q) = label_covered q

unfoldable pub card_color : Option SummaryItem → CardColor
card_color none = uncovered
card_color (some q) = if q.allowed then allowed else at_quota

pub record Card : Type 0 where
  pub name : String
  pub color : CardColor
  pub label : CardLabel
  pub is_disabled : Bool

-- `ClassGrid`; `none` where no class is defined
abbrev pub card : List SummaryItem → Bool → GymClass → Card
card summary disabled c =
    let q = find_quota_for_class summary c.id in
    record { name = c.name; color = card_color q; label = card_label q; is_disabled = disabled }

unfoldable pub class_grid : List GymClass → List SummaryItem → Bool → Option (List Card)
class_grid [] summary disabled = none
class_grid classes summary disabled = some (map (card summary disabled) classes)

-- What a chip counts: no limit, or the entries used and their number.
pub data ChipLabel : Type 0 where
  no_limit : ChipLabel
  of : ℕ → ℕ → ChipLabel

pub data Scope : Type 0 where
  all_classes some_class : Scope
  class_named : String → Scope

pub record Chip : Type 0 where
  pub scope : Scope
  pub label : ChipLabel
  pub period : Option String

abbrev named : Option String → Scope
named none = some_class
named (some name) = class_named name

abbrev pub chip_scope : List GymClass → Option String → Scope
chip_scope classes none = all_classes
chip_scope classes (some id) =
    if id == "" then all_classes else named (map_get id (map (λ c. (c.id, c.name)) classes))

abbrev pub chip : List GymClass → SummaryItem → Chip
chip classes s = record {
  scope = chip_scope classes s.class_id;
  label =
      if get_or s.reset_period "" == "unlimited"
      then no_limit
      else of (get_or s.used 0) (get_or s.quantity 0);
  period = period_or_none s.reset_period;
}

-- `MemberSummaryStrip`
unfoldable pub member_summary_strip : List SummaryItem → List GymClass → List Chip
unfolding string_eq
member_summary_strip summary classes = map (chip classes) summary
