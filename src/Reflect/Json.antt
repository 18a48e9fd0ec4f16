-- ===== src/Reflect/Json.antt =====
-- JSON values as `encoding/json` decodes them into `interface{}`. A number is a float64 in the
-- program; here it is one with an integral value, which is what the fields of the models can hold.
use student_system_go.Common.{String, Bool, List, [], ◌∷◌, Option, none, some, if◌then◌else◌}
use student_system_go.Common.Int.{ℤ}
use student_system_go.Common.Text.{same}

mutual
  pub data Json : Type 0 where
    null : Json
    bool : Bool → Json
    num : ℤ → Json
    str : String → Json
    arr : Items → Json
    obj : Members → Json

  pub data Items : Type 0 where
    nil : Items
    cons : Json → Items → Items

  pub data Members : Type 0 where
    end : Members
    member : String → Json → Members → Members

abbrev pub items : Items → List Json
items nil = []
items (cons v vs) = v ∷ items vs

-- A decoded object: its members in the order in which `range` visits them.
abbrev pub Update : Type 0
Update = List (String × Json)

abbrev pub members : Members → Update
members end = []
members (member k v ms) = (k, v) ∷ members ms

-- `update[key]`, on a map whose keys are distinct.
unfoldable pub lookup : String → Update → Option Json
lookup key [] = none
lookup key ((k, v) ∷ u) = if same k key then some v else lookup key u

-- `.(string)`
abbrev pub as_string : Option Json → Option String
as_string (some (str s)) = some s
as_string _ = none
