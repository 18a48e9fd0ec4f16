-- ===== src/Reflect/Decode.antt =====
-- `encoding/json` decoding into a struct: members are matched to fields by the name of the json tag,
-- exactly or up to case; unknown members are ignored, `null` leaves a field as it is, and a value of
-- another type is an error. A field tagged "-" is never set.
use student_system_go.Common.{
  ℕ, ◌+◌, String, Bool, true, false, ◌&&◌, not, Option, none, some, List, [], ◌∷◌, code, leb, ◌==◌,
  if◌then◌else◌,
}
use student_system_go.Common.Int.{ℤ, pos}
use student_system_go.Common.Text.{same, trim_suffix}
use student_system_go.Reflect.{Slot, int_slot, string_slot, bool_slot, null_string_slot, Field}
use student_system_go.Reflect.Json.{Json, Items, nil, cons, Update, members, lookup}

-- The folding of letters: ASCII case, and the two letters beyond ASCII that fold into it.
abbrev fold_code : ℕ → ℕ
fold_code c =
    if leb b'A' c && leb c b'Z'
    then c + 32
    else if c == 0x17f
    then b's'
    else if c == 0x212a
    then b'k'
    else c

unfoldable pub equal_fold : String → String → Bool
equal_fold String.[] String.[] = true
equal_fold String.[] (String.◌∷◌ d t) = false
equal_fold (String.◌∷◌ c s) String.[] = false
equal_fold (String.◌∷◌ c s) (String.◌∷◌ d t) =
    (fold_code (code c) == fold_code (code d)) && equal_fold s t

abbrev pub or_else {ℓ} : {A : Type ℓ} → Option A → Option A → Option A
or_else none o = o
or_else (some a) o = some a

abbrev pub and_then {ℓ} : {A B : Type ℓ} → Option A → (A → Option B) → Option B
and_then none k = none
and_then (some a) k = k a

-- `sql.NullString` decodes from an object with the members String and Valid.
abbrev pub valid_string : Option Json → Option Json → Option (Option String)
valid_string (some (Json.str s)) (some (Json.bool true)) = some (some s)
valid_string none (some (Json.bool true)) = some (some "")
valid_string (some (Json.str s)) (some (Json.bool false)) = some none
valid_string (some (Json.str s)) none = some none
valid_string none (some (Json.bool false)) = some none
valid_string none none = some none
valid_string _ _ = none

module _ {R : Type 0} where
  abbrev pub json_name : Field R → String
  json_name f = trim_suffix f.json ",omitempty"

  unfoldable pub field_where : (String → Bool) → List (Field R) → Option (Field R)
  unfolding trim_suffix
  field_where test [] = none
  field_where test (f ∷ fs) =
      if not (same f.json "-") && test (json_name f) then some f else field_where test fs

  -- The exact name first, then the first field whose name is equal up to case.
  unfoldable pub field_for : List (Field R) → String → Option (Field R)
  unfolding field_where equal_fold
  field_for fields key =
      or_else (field_where (λ name. same name key) fields)
        (field_where (λ name. equal_fold name key) fields)

  unfoldable pub decode_slot : Slot R → Json → R → Option R
  unfolding lookup
  decode_slot slot Json.null r = some r
  decode_slot (int_slot get set) (Json.num n) r = some (set n r)
  decode_slot (string_slot get set) (Json.str s) r = some (set s r)
  decode_slot (bool_slot get set) (Json.bool b) r = some (set b r)
  decode_slot (null_string_slot get set) (Json.obj ms) r =
      elim (valid_string (lookup "String" (members ms)) (lookup "Valid" (members ms))) [
        | none ↦ none
        | some o ↦ some (set o r)
      ]
  decode_slot _ _ r = none

  -- A member without a field is ignored.
  abbrev pub decode_into : Option (Field R) → Json → R → Option R
  decode_into none v r = some r
  decode_into (some f) v r = decode_slot f.slot v r

  unfoldable pub decode_members : List (Field R) → Update → R → Option R
  unfolding field_for decode_slot
  decode_members fields [] r = some r
  decode_members fields ((k, v) ∷ u) r =
      and_then (decode_into (field_for fields k) v r) (decode_members fields u)

  -- `json.Unmarshal` into a struct; `null` leaves it zero.
  unfoldable pub decode_struct : List (Field R) → R → Json → Option R
  unfolding decode_members
  decode_struct fields zero_value Json.null = some zero_value
  decode_struct fields zero_value (Json.obj ms) = decode_members fields (members ms) zero_value
  decode_struct fields zero_value _ = none

  unfoldable pub decode_items : List (Field R) → R → Items → Option (List R)
  unfolding decode_struct
  decode_items fields zero_value nil = some []
  decode_items fields zero_value (cons v vs) = elim (decode_struct fields zero_value v) [
    | none ↦ none
    | some r ↦ elim (decode_items fields zero_value vs) [ none ↦ none | some rs ↦ some (r ∷ rs) ]
  ]

  -- `json.Unmarshal` into a slice of structs.
  unfoldable pub decode_structs : List (Field R) → R → Json → Option (List R)
  unfolding decode_items
  decode_structs fields zero_value Json.null = some []
  decode_structs fields zero_value (Json.arr vs) = decode_items fields zero_value vs
  decode_structs fields zero_value _ = none

decode_objects_items : Items → Option (List Update)
decode_objects_items nil = some []
decode_objects_items (cons (Json.obj ms) vs) = elim (decode_objects_items vs) [
  | none ↦ none
  | some us ↦ some (members ms ∷ us)
]
decode_objects_items (cons Json.null vs) = elim (decode_objects_items vs) [
  | none ↦ none
  | some us ↦ some ([] ∷ us)
]
decode_objects_items (cons _ vs) = none

-- `json.Unmarshal` into `[]map[string]interface{}`; a `null` is a nil map or slice.
unfoldable pub decode_objects : Json → Option (List Update)
unfolding decode_objects_items
decode_objects Json.null = some []
decode_objects (Json.arr vs) = decode_objects_items vs
decode_objects _ = none

-- `Decode(&updates)` into `map[string]interface{}`
abbrev pub decode_object : Json → Option Update
decode_object Json.null = some []
decode_object (Json.obj ms) = some (members ms)
decode_object _ = none

decode_int_items : Items → Option (List ℤ)
decode_int_items nil = some []
decode_int_items (cons (Json.num n) vs) = elim (decode_int_items vs) [
  | none ↦ none
  | some ids ↦ some (n ∷ ids)
]
decode_int_items (cons Json.null vs) = elim (decode_int_items vs) [
  | none ↦ none
  | some ids ↦ some (pos 0 ∷ ids)
]
decode_int_items (cons _ vs) = none

-- `Decode(&ids)` into `[]int`
unfoldable pub decode_ints : Json → Option (List ℤ)
unfolding decode_int_items
decode_ints Json.null = some []
decode_ints (Json.arr vs) = decode_int_items vs
decode_ints _ = none
