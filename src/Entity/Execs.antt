-- ===== src/Entity/Execs.antt =====
-- The statements and messages of internal/repository/sqlconnect/execs_crud.go and execs_photo.go.
-- A single patch reads five columns and writes seven; a bulk patch writes four. Deleting several
-- execs, and replacing one, is not part of the program.
use student_system_go.Common.{String, List, [], ◌∷◌, Option, none, some}
use student_system_go.Reflect.{Value, null, int, text, bool, null_or_text}
use student_system_go.Models.{Exec, zero_exec, exec_fields}
use student_system_go.Entity.{Messages, Entity, Columns}

abbrev pub text_or_null : Value → Option (Option String)
text_or_null null = some none
text_or_null (text s) = some (some s)
text_or_null _ = none

abbrev scan_rest : Exec → Option (Option String) → Option Exec
scan_rest e none = none
scan_rest e (some created) = some (record e { user_created_at = created })

abbrev pub scan_exec : List Value → Option Exec
scan_exec (int i ∷ text f ∷ text l ∷ text m ∷ text u ∷ created ∷ bool b ∷ text r ∷ []) =
    scan_rest
      (record zero_exec {
        id = i;
        first_name = f;
        last_name = l;
        email = m;
        username = u;
        inactive_status = b;
        role = r;
      })
      (text_or_null created)
scan_exec _ = none

abbrev pub scan_exec_for_patch : List Value → Option Exec
scan_exec_for_patch (int i ∷ text f ∷ text l ∷ text m ∷ text u ∷ []) =
    some (record zero_exec { id = i; first_name = f; last_name = l; email = m; username = u })
scan_exec_for_patch _ = none

abbrev exec_messages : Messages
exec_messages = record {
  not_found = "Exec not found";
  query_failed = "Failed to query exec";
  retrieve_failed = "Failed to retrieve exec";
  update_failed = "Failed to update exec";
  insert_failed = λ cause. "Failed to insert exec";
  delete_failed = "Failed to delete exec";
  missing_id = "Invalid or missing student ID";
  invalid_id = "Invalid student ID";
  delete_id_failed = "";
  absent = "";
  nothing_deleted = "";
  photo_query_failed = "Failed to query exec photo";
  photo_update_failed = "Failed to update exec photo";
}

abbrev pub exec_entity : Entity Exec
exec_entity = record {
  table = "execs";
  fields = exec_fields;
  zero_row = zero_exec;
  id = λ e. e.id;
  with_id = λ i e. record e { id = i };
  select =
      "SELECT id, first_name, last_name, email, username, user_created_at, inactive_status, role  FROM execs WHERE id = ?";
  scan = scan_exec;
  patch_select = "SELECT id, first_name, last_name, email, username FROM execs WHERE id = ?";
  patch_scan = scan_exec_for_patch;
  update =
      "UPDATE execs SET first_name = ?, last_name = ?, email = ?, username = ?, user_created_at = ?, inactive_status = ?, role = ? WHERE id = ?";
  update_args = λ e.
      text e.first_name
      ∷ text e.last_name
      ∷ text e.email
      ∷ text e.username
      ∷ null_or_text e.user_created_at
      ∷ bool e.inactive_status
      ∷ text e.role
      ∷ int e.id
      ∷ [];
  tx_update = "UPDATE execs SET first_name=?,last_name=?, email=?, username=? WHERE id=?";
  tx_update_args =
      λ e. text e.first_name ∷ text e.last_name ∷ text e.email ∷ text e.username ∷ int e.id ∷ [];
  delete = "DELETE FROM execs WHERE id = ?";
  select_photo = "SELECT photo_s3_key FROM execs WHERE id = ?";
  update_photo = "UPDATE execs SET photo_s3_key = ? WHERE id = ?";
  messages = exec_messages;
}

abbrev written_names : Exec → Exec → Exec
written_names new old = record old {
  first_name = new.first_name;
  last_name = new.last_name;
  email = new.email;
  username = new.username;
}

abbrev pub exec_columns : Columns Exec
exec_columns = record {
  selected = λ e. record zero_exec {
    id = e.id;
    first_name = e.first_name;
    last_name = e.last_name;
    email = e.email;
    username = e.username;
    user_created_at = e.user_created_at;
    inactive_status = e.inactive_status;
    role = e.role;
  };
  patch_selected = λ e. record zero_exec {
    id = e.id;
    first_name = e.first_name;
    last_name = e.last_name;
    email = e.email;
    username = e.username;
  };
  written = λ new old. record (written_names new old) {
    user_created_at = new.user_created_at;
    inactive_status = new.inactive_status;
    role = new.role;
  };
  tx_written = written_names;
}
