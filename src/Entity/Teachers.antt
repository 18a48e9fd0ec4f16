-- ===== src/Entity/Teachers.antt =====
-- The statements and messages of internal/repository/sqlconnect/teachers_crud.go and
-- teachers_photo.go.
use student_system_go.Common.{List, [], ◌∷◌, Option, none, some}
use student_system_go.Reflect.{Value, int, text}
use student_system_go.Models.{Teacher, zero_teacher, teacher_fields}
use student_system_go.Entity.{Messages, Entity, Columns}

abbrev pub scan_teacher : List Value → Option Teacher
scan_teacher (int i ∷ text f ∷ text l ∷ text e ∷ text c ∷ text s ∷ []) = some (record zero_teacher {
  id = i;
  first_name = f;
  last_name = l;
  email = e;
  class = c;
  subject = s;
})
scan_teacher _ = none

abbrev pub teacher_args : Teacher → List Value
teacher_args t =
    text t.first_name
    ∷ text t.last_name
    ∷ text t.email
    ∷ text t.class
    ∷ text t.subject
    ∷ int t.id
    ∷ []

abbrev teacher_messages : Messages
teacher_messages = record {
  not_found = "Teacher not found";
  query_failed = "Failed to query teacher";
  retrieve_failed = "Failed to retrieve teacher";
  update_failed = "Failed to update teacher";
  insert_failed = λ cause. "Failed to insert teacher";
  delete_failed = "Failed to delete teacher";
  missing_id = "Invalid or missing teacher ID";
  invalid_id = "Invalid teacher ID";
  delete_id_failed = "Failed to delete teacher with ID ";
  absent = "Teacher with ID ";
  nothing_deleted = "ID's do not exist and No teachers were deleted";
  photo_query_failed = "Failed to query teacher photo";
  photo_update_failed = "Failed to update teacher photo";
}

abbrev pub teacher_entity : Entity Teacher
teacher_entity = record {
  table = "teachers";
  fields = teacher_fields;
  zero_row = zero_teacher;
  id = λ t. t.id;
  with_id = λ i t. record t { id = i };
  select = "SELECT id, first_name, last_name, email, class, subject FROM teachers WHERE id = ?";
  scan = scan_teacher;
  patch_select =
      "SELECT id, first_name, last_name, email, class, subject FROM teachers WHERE id = ?";
  patch_scan = scan_teacher;
  update =
      "UPDATE teachers SET first_name = ?, last_name = ?, email = ?, class = ?, subject = ? WHERE id = ?";
  update_args = teacher_args;
  tx_update =
      "UPDATE teachers SET first_name=?,last_name=?, email=?, class=?, subject=? WHERE id=?";
  tx_update_args = teacher_args;
  delete = "DELETE FROM teachers WHERE id = ?";
  select_photo = "SELECT photo_s3_key FROM teachers WHERE id = ?";
  update_photo = "UPDATE teachers SET photo_s3_key = ? WHERE id = ?";
  messages = teacher_messages;
}

abbrev written_teacher : Teacher → Teacher → Teacher
written_teacher new old = record old {
  first_name = new.first_name;
  last_name = new.last_name;
  email = new.email;
  class = new.class;
  subject = new.subject;
}

abbrev pub teacher_columns : Columns Teacher
teacher_columns = record {
  selected = λ t. record t { photo_s3_key = "" };
  patch_selected = λ t. record t { photo_s3_key = "" };
  written = written_teacher;
  tx_written = written_teacher;
}
