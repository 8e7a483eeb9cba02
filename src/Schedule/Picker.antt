-- ===== src/Schedule/Picker.antt =====
-- The list of classes to choose from in the dialogs of frontend/src/features/schedule: `loadClasses`, which is the
-- same in BulkActionDialog.tsx, TemplateForm.tsx and AdHocSessionDialog.tsx. `toLowerCase` is a parameter.
pub mod Laws
mod Tests
use dopacrm.Base.{Bool, String, List, ℕ, filter, take, drop, ◌==◌, string_eq, if◌then◌else◌}
use dopacrm.Http.Messages.{has}

-- The fields of `GymClass` that the list reads.
pub record GymClass : Type 0 where
  pub id : String
  pub name : String

-- What the server answers to `listClasses`, of the active classes of the tenant in the order of their names.
abbrev pub list_for_tenant : List GymClass → ℕ → ℕ → List GymClass
list_for_tenant classes limit offset = take limit (drop offset classes)

module _ (lower : String → String) (classes : List GymClass) where
  abbrev pub found : String → GymClass → Bool
  found search c = has (lower c.name) (lower search)

  -- `loadClasses`
  unfoldable pub load_classes : String → ℕ → ℕ → List GymClass
  unfolding string_eq
  load_classes search limit offset =
      let every = list_for_tenant classes 200 offset in
      if search == "" then take limit every else take limit (filter (found search) every)
