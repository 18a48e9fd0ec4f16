-- ===== src/Entity.antt =====
-- What the three copies of the repository code (students, teachers and execs) differ in: the struct,
-- the texts of the statements with their arguments, and the messages.
pub mod Students
pub mod Teachers
pub mod Execs
use student_system_go.Common.{String, Bool, List, Option}
use student_system_go.Common.Int.{ℤ}
use student_system_go.Reflect.{Value, Field}

pub record Messages : Type 0 where
  pub not_found : String
  pub query_failed : String
  pub retrieve_failed : String
  pub update_failed : String
  -- from the driver's error
  pub insert_failed : String → String
  pub delete_failed : String
  pub missing_id : String
  pub invalid_id : String
  pub delete_id_failed : String
  pub absent : String
  pub nothing_deleted : String
  pub photo_query_failed : String
  pub photo_update_failed : String

pub record Entity (R : Type 0) : Type 0 where
  pub table : String
  pub fields : List (Field R)
  pub zero_row : R
  pub id : R → ℤ
  pub with_id : ℤ → R → R
  -- the single-row SELECT, and the `Scan` of its columns into a zero struct
  pub select : String
  pub scan : List Value → Option R
  -- the SELECT of a single patch and of a bulk patch
  pub patch_select : String
  pub patch_scan : List Value → Option R
  pub update : String
  pub update_args : R → List Value
  pub tx_update : String
  pub tx_update_args : R → List Value
  pub delete : String
  pub select_photo : String
  pub update_photo : String
  pub messages : Messages

-- What the statements say of the columns: which of them a SELECT delivers, as a struct that is zero
-- elsewhere, and which of them an UPDATE writes: `written new old` is the row `old` with those of
-- `new`.
pub record Columns (R : Type 0) : Type 0 where
  pub selected : R → R
  pub patch_selected : R → R
  pub written : R → R → R
  pub tx_written : R → R → R
