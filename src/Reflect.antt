-- ===== src/Reflect.antt =====
-- Struct types as the program sees them through `reflect` and `encoding/json`: a list of fields,
-- each with its tags and a slot that reads and writes it. Models pkg/utils/database_utils.go
-- (query building), internal/api/handlers/helpers.go and the patch loops of the repository.
pub mod Json
mod Tests
pub mod Patch
pub mod Decode
pub mod Frame
pub mod Keeps
use student_system_go.Common.{
  ℕ, String, Bool, true, false, ◌&&◌, not, Option, none, some, List, [], ◌∷◌, ◌++◌, if◌then◌else◌,
}
use student_system_go.Common.Int.{ℤ}
use student_system_go.Common.Text.{same, ◌<>◌, trim_suffix}

-- A value that `database/sql` sends to the server.
pub data Value : Type 0 where
  null : Value
  int : ℤ → Value
  text : String → Value
  bool : Bool → Value

-- A field by its Go kind. `null_string` is the struct `sql.NullString`.
pub data Slot (R : Type 0) : Type 0 where
  int_slot : (R → ℤ) → (ℤ → R → R) → Slot R
  string_slot : (R → String) → (String → R → R) → Slot R
  bool_slot : (R → Bool) → (Bool → R → R) → Slot R
  null_string_slot : (R → Option String) → (Option String → R → R) → Slot R

pub record Field (R : Type 0) : Type 0 where
  pub json : String
  pub db : String
  pub slot : Slot R

abbrev pub null_or_text : Option String → Value
null_or_text none = null
null_or_text (some s) = text s

-- One more column, after a comma unless it is the first.
abbrev separated : String → String → String
separated columns next = if same columns "" then next else columns <> ", " <> next

module _ {R : Type 0} where
  abbrev pub value_of : Slot R → R → Value
  value_of (int_slot get set) r = int (get r)
  value_of (string_slot get set) r = text (get r)
  value_of (bool_slot get set) r = bool (get r)
  value_of (null_string_slot get set) r = null_or_text (get r)

  abbrev pub column : Field R → String
  column f = trim_suffix f.db ",omitempty"

  -- `dbTag != "" && dbTag != "id"`
  abbrev pub is_inserted : Field R → Bool
  is_inserted f = not (same (column f) "") && not (same (column f) "id")

  insert_columns : String → String → List (Field R) → String × String
  insert_columns columns marks [] = (columns, marks)
  insert_columns columns marks (f ∷ fs) =
      let added =
        insert_columns (separated columns (column f))
          (if same columns "" then marks <> "?" else marks <> ", ?") fs in
      let skipped = insert_columns columns marks fs in if is_inserted f then added else skipped

  -- `GenerateInsertQuery`
  unfoldable pub generate_insert_query : String → List (Field R) → String
  unfolding insert_columns trim_suffix
  generate_insert_query table fields =
      let (columns, marks) = insert_columns "" "" fields in
      "INSERT INTO " <> table <> " (" <> columns <> ") VALUES (" <> marks <> ")"

  -- `GetStructValues`
  unfoldable pub get_struct_values : List (Field R) → R → List Value
  unfolding trim_suffix
  get_struct_values [] r = []
  get_struct_values (f ∷ fs) r =
      let rest = get_struct_values fs r in if is_inserted f then value_of f.slot r ∷ rest else rest

  -- `GetFieldNames`
  unfoldable pub get_field_names : List (Field R) → List String
  unfolding trim_suffix
  get_field_names [] = []
  get_field_names (f ∷ fs) = trim_suffix f.json ",omitempty" ∷ get_field_names fs

  -- `fieldValue.Kind() == reflect.String && fieldValue.String() == ""`
  abbrev pub is_blank : Slot R → R → Bool
  is_blank (string_slot get set) r = same (get r) ""
  is_blank _ r = false

  -- `CheckBlankFields`: true where it returns an error.
  unfoldable pub has_blank_field : List (Field R) → R → Bool
  has_blank_field [] r = false
  has_blank_field (f ∷ fs) r = if is_blank f.slot r then true else has_blank_field fs r
