-- ===== src/Ui/Tests.antt =====
-- Runs of the combobox, and the theorems on them.
use dopacrm.Base.{
  ◌≡◌, refl, true, false, String, some, List, [], ◌∷◌, ℕ, eqb, if◌then◌else◌, string_eq, bool_eq,
}
use mathlib.Core.List.{Perm}
use dopacrm.Ui.Table.{Column, card_columns}
use dopacrm.Ui.Table.Laws.{kept, card_columns-perm}
use dopacrm.Ui.Combobox.{
  idle, running, waiting, Combobox, initial, set_open, run, finish_run, load_more, finish_more,
  shows_more, first, toggled, fired, loaded, pressed, extended, Reach, mounted, next,
}
use dopacrm.Ui.Combobox.Settle.{settle, Rests, settle-Rests}
use dopacrm.Ui.Combobox.Pages.{Pages}
use dopacrm.Ui.Combobox.Laws.{Reach-Pages, overtaken, overtaken-Mixed}

-- Pages of two members: one full page, then one more.
abbrev serve : String → ℕ → List String
serve q offset = if eqb offset 0 then (q ∷ "b" ∷ []) else "c" ∷ []

abbrev Serves : String → ℕ → List String → Type 0
Serves q offset batch = batch ≡ serve q offset

abbrev opened : Combobox String
opened = record initial { is_open = true; effect = waiting "" }

abbrev shown : Combobox String
shown = record opened { items = "" ∷ "b" ∷ []; has_more = true; effect = idle }

opened_run : Reach 2 Serves opened
unfolding set_open bool_eq
opened_run = next mounted (toggled initial true refl)

shown_run : Reach 2 Serves shown
unfolding run finish_run opened_run
shown_run = next (next opened_run (fired opened "" refl)) (
    loaded (record opened { loading = true; effect = running "" }) "" (some ("" ∷ "b" ∷ [])) refl
      refl)

abbrev asked : Combobox String
asked = record shown { loading = true; mores = record { search = ""; next = 1 } ∷ [] }

asked_run : Reach 2 Serves asked
unfolding load_more shows_more shown_run
asked_run = next shown_run (pressed shown refl)

abbrev extended_state : Combobox String
extended_state = record shown { items = "" ∷ "b" ∷ "c" ∷ []; page = 1; has_more = false }

extended_run : Reach 2 Serves extended_state
unfolding finish_more asked_run
extended_run =
    next asked_run
      (extended asked (record { search = ""; next = 1 }) [] (some ("c" ∷ [])) first refl)

settle-Rests_example :
    Reach 2 Serves (settle 2 Serves (λ q offset. some (serve q offset)) asked)
    × Rests (settle 2 Serves (λ q offset. some (serve q offset)) asked)
settle-Rests_example =
    settle-Rests 2 Serves (λ q offset. some (serve q offset)) (λ q offset. refl) asked_run refl

Reach-Pages_example : (extended_state.loading ≡ false) × Pages 2 Serves "" 1 ("" ∷ "b" ∷ "c" ∷ [])
unfolding extended_run asked_run shown_run opened_run
Reach-Pages_example =
    Reach-Pages 2 Serves extended_run (((((tt, refl), tt), ("" ∷ "b" ∷ [], refl)), refl), tt) refl
      refl refl

abbrev mixed : Combobox String
mixed =
    overtaken 2 Serves asked "ron" (record { search = ""; next = 1 }) ("ron" ∷ "b" ∷ []) ("c" ∷ [])

overtaken-Mixed_example :
    Reach 2 Serves mixed
    × (mixed.search ≡ "ron")
    × (mixed.items ≡ "ron" ∷ "b" ∷ "c" ∷ [])
    × (mixed.page ≡ 1)
    × (mixed.loading ≡ false)
unfolding string_eq
overtaken-Mixed_example =
    overtaken-Mixed 2 Serves "ron" (record { search = ""; next = 1 }) ("ron" ∷ "b" ∷ []) ("c" ∷ [])
      asked_run refl refl refl refl refl

abbrev name_column : Column String
name_column = record {
  header = "name";
  cell = λ row. row;
  primary_mobile = true;
  hide_on_mobile = false;
}

abbrev joined_column : Column String
joined_column = record {
  header = "joined";
  cell = λ _. "1/2";
  primary_mobile = false;
  hide_on_mobile = true;
}

abbrev status_column : Column String
status_column = record {
  header = "status";
  cell = λ _. "active";
  primary_mobile = false;
  hide_on_mobile = false;
}

card_columns-perm_example :
    ((card_columns (status_column ∷ joined_column ∷ name_column ∷ [])).0 ≡ some name_column)
    × Perm
        (name_column ∷ status_column ∷ [])
        (kept (status_column ∷ joined_column ∷ name_column ∷ []))
card_columns-perm_example =
    card_columns-perm (status_column ∷ joined_column ∷ []) [] name_column (refl, (refl, tt)) refl
      refl
