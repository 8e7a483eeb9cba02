-- ===== src/Schedule/Picker/Tests.antt =====
-- A list of classes, and the theorems on it.
use dopacrm.Base.{
  ◌≡◌, refl, true, String, some, List, [], ◌∷◌, ◌++◌, ◌*◌, take, string_eq, bool_eq, arith,
}
use dopacrm.Http.Messages.{has}
use dopacrm.Ui.Combobox.{
  idle, waiting, running, Combobox, initial, set_open, set_search, run, finish_run, load_more,
  finish_more, shows_more, first, toggled, typed, fired, loaded, pressed, extended, Reach, mounted,
  next,
}
use dopacrm.Schedule.Picker.{GymClass, load_classes}
use dopacrm.Schedule.Picker.Laws.{Loads, Reach-take, Reach-twice}

abbrev as_typed : String → String
as_typed s = s

abbrev class : String → GymClass
class name = record { id = name; name = name }

abbrev classes : List GymClass
classes = class "box" ∷ class "dance" ∷ class "yoga 1" ∷ class "yoga 2" ∷ []

abbrev hits : List GymClass
hits = class "yoga 1" ∷ class "yoga 2" ∷ []

abbrev opened : Combobox GymClass
opened = record initial { is_open = true; effect = waiting "" }

opened_run : Reach 2 (Loads as_typed classes 2) opened
unfolding set_open bool_eq
opened_run = next mounted (toggled initial true refl)

abbrev listed : Combobox GymClass
listed = record opened { items = take 2 classes; has_more = true; effect = idle }

listed_run : Reach 2 (Loads as_typed classes 2) listed
unfolding run finish_run opened_run load_classes string_eq
listed_run = next (next opened_run (fired opened "" refl)) (
    loaded (record opened { loading = true; effect = running "" }) "" (some (take 2 classes)) refl
      refl)

Reach-take_example : listed.items ≡ take (1 * 2) classes
unfolding listed_run opened_run
Reach-take_example =
    Reach-take as_typed classes 2 listed_run (omega arith)
      (((tt, refl), tt), (class "box" ∷ class "dance" ∷ [], refl)) refl refl refl refl

abbrev searching : Combobox GymClass
searching = record opened { search = "yoga"; effect = waiting "yoga" }

abbrev shown : Combobox GymClass
shown = record searching { items = hits; has_more = true; effect = idle }

shown_run : Reach 2 (Loads as_typed classes 2) shown
unfolding run finish_run set_search opened_run load_classes string_eq has
shown_run =
    next (next (next opened_run (typed opened "yoga" refl refl)) (fired searching "yoga" refl)) (
      loaded (record searching { loading = true; effect = running "yoga" }) "yoga" (some hits) refl
        refl)

abbrev asked : Combobox GymClass
asked = record shown { loading = true; mores = record { search = "yoga"; next = 1 } ∷ [] }

asked_run : Reach 2 (Loads as_typed classes 2) asked
unfolding load_more shows_more shown_run
asked_run = next shown_run (pressed shown refl)

abbrev doubled : Combobox GymClass
doubled = record shown { items = hits ++ hits; page = 1 }

doubled_run : Reach 2 (Loads as_typed classes 2) doubled
unfolding finish_more asked_run load_classes string_eq has
doubled_run =
    next asked_run (extended asked (record { search = "yoga"; next = 1 }) [] (some hits) first refl)

Reach-twice_example :
    doubled.items
    ≡ load_classes as_typed classes "yoga" 2 0 ++ load_classes as_typed classes "yoga" 2 0
unfolding doubled_run asked_run shown_run opened_run has string_eq
Reach-twice_example =
    Reach-twice as_typed classes 2 doubled_run (omega arith)
      ((((((tt, refl), refl), tt), (hits, refl)), refl), tt) refl refl refl refl refl refl
