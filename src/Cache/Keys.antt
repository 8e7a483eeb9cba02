-- ===== src/Cache/Keys.antt =====
-- The keys of queries: an array of strings and of objects. An object lists the fields that are defined,
-- since a field that is `undefined` makes no difference to a key.
use Prim.Native.Nat.{ℕ}
use mathlib.Core.Bool.{Bool-discrete}
use mathlib.Core.List.{List-discrete}
use native.Mathlib.Decide.{ℕ_discrete}
use dopacrm.Base.{
  Bool, true, false, ◌&&◌, String, Option, none, some, List, [], ◌∷◌, Eq, ◌==◌, string_eq,
}

pub data Setting : Type 0 where
  text : String → Setting
  number : ℕ → Setting
  flag : Bool → Setting
  texts : List String → Setting

abbrev pub Object : Type 0
Object = List (String × Setting)

pub data Part : Type 0 where
  word : String → Part
  object : Object → Part

abbrev pub Key : Type 0
Key = List Part

-- An object with one field more, where the field is defined.
abbrev pub defined {ℓ} : {A : Type ℓ} → String → (A → Setting) → Option A → Object → Object
defined k setting none o = o
defined k setting (some v) o = (k, setting v) ∷ o

unfoldable String-discrete : Discrete String
unfolding string_eq
String-discrete = string_eq.dec

unfoldable texts-discrete : Discrete (List String)
unfolding String-discrete
texts-discrete = List-discrete String-discrete

unfoldable Setting-discrete : Discrete Setting
unfolding texts-discrete
Setting-discrete = hlevel (String-discrete, ℕ_discrete, Bool-discrete, texts-discrete)

unfoldable entry-discrete : Discrete (String × Setting)
unfolding Setting-discrete
entry-discrete = hlevel (String-discrete, Setting-discrete)

unfoldable Part-discrete : Discrete Part
unfolding entry-discrete
Part-discrete = hlevel (String-discrete, List-discrete entry-discrete)

instance unfoldable pub part_eq : Eq Part
unfolding Part-discrete
part_eq = record { dec = Part-discrete }

instance unfoldable pub key_eq : Eq Key
unfolding Part-discrete
key_eq = record { dec = List-discrete Part-discrete }

-- Whether an invalidation of the first key concerns a query with the second one.
abbrev pub starts_with : Key → Key → Bool
starts_with [] k = true
starts_with (p ∷ ps) [] = false
starts_with (p ∷ ps) (q ∷ qs) = p == q && starts_with ps qs
