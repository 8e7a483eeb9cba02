-- ===== src/Http/Json.antt =====
-- JSON values, as `JSON.stringify` takes them and `res.json()` gives them.
use dopacrm.Base.{
  Bool, true, false, not, String, Option, none, some, ◌==◌, string_eq, if◌then◌else◌,
}

mutual
  pub data Json : Type 0 where
    null : Json
    bool : Bool → Json
    -- a number, by the text that JSON gives it
    num : String → Json
    str : String → Json
    arr : Items → Json
    obj : Fields → Json

  pub data Items : Type 0 where
    nil : Items
    cons : Json → Items → Items

  pub data Fields : Type 0 where
    end : Fields
    field : String → Json → Fields → Fields

-- The truth value of a JSON value.
abbrev pub is_truthy : Json → Bool
is_truthy null = false
is_truthy (bool b) = b
is_truthy (num t) = not (t == "0")
is_truthy (str s) = not (s == "")
is_truthy (arr _) = true
is_truthy (obj _) = true

abbrev pub field_of : String → Fields → Option Json
field_of k end = none
field_of k (field j v fs) = if j == k then some v else field_of k fs

-- `v.k`, where `v` is no `null`: `undefined` on what has no such field
abbrev pub property : String → Json → Option Json
property k (obj fs) = field_of k fs
property k _ = none
