-- ===== src/Entity/Students.antt =====
-- The statements and messages of internal/repository/sqlconnect/students_crud.go and
-- students_photo.go.
use student_system_go.Common.{String, List, [], ◌∷◌, Option, none, some}
use student_system_go.Common.{if◌then◌else◌}
use student_system_go.Common.Text.{contains}
use student_system_go.Reflect.{Value, int, text}
use student_system_go.Models.{Student, zero_student, student_fields}
use student_system_go.Entity.{Messages, Entity, Columns}

abbrev pub scan_student : List Value → Option Student
scan_student (int i ∷ text f ∷ text l ∷ text e ∷ text c ∷ []) =
    some (record zero_student { id = i; first_name = f; last_name = l; email = e; class = c })
scan_student _ = none

abbrev pub student_args : Student → List Value
student_args s = text s.first_name ∷ text s.last_name ∷ text s.email ∷ text s.class ∷ int s.id ∷ []

abbrev foreign_key_error : String
foreign_key_error =
    "a foreign key constraint fails (`school`.`students` CONSTRAINT `students_ibk_1` FOREIGN KEY (`class`) REFERENCES `teachers` (`class`))"

abbrev pub student_insert_failed : String → String
student_insert_failed cause =
    if contains cause foreign_key_error
    then "Invalid class value: no teacher assigned to this class or class does not exist!"
    else "Failed to insert student"

abbrev student_messages : Messages
student_messages = record {
  not_found = "Student not found";
  query_failed = "Failed to query student";
  retrieve_failed = "Failed to retrieve student";
  update_failed = "Failed to update student";
  insert_failed = student_insert_failed;
  delete_failed = "Failed to delete student";
  missing_id = "Invalid or missing student ID";
  invalid_id = "Invalid student ID";
  delete_id_failed = "Failed to delete student with ID ";
  absent = "Student with ID ";
  nothing_deleted = "ID's do not exist and No students were deleted";
  photo_query_failed = "Failed to query student photo";
  photo_update_failed = "Failed to update student photo";
}

abbrev pub student_entity : Entity Student
student_entity = record {
  table = "students";
  fields = student_fields;
  zero_row = zero_student;
  id = λ s. s.id;
  with_id = λ i s. record s { id = i };
  select = "SELECT id, first_name, last_name, email, class FROM students WHERE id = ?";
  scan = scan_student;
  patch_select = "SELECT id, first_name, last_name, email, class FROM students WHERE id = ?";
  patch_scan = scan_student;
  update = "UPDATE students SET first_name = ?, last_name = ?, email = ?, class = ? WHERE id = ?";
  update_args = student_args;
  tx_update = "UPDATE students SET first_name=?,last_name=?, email=?, class=? WHERE id=?";
  tx_update_args = student_args;
  delete = "DELETE FROM students WHERE id = ?";
  select_photo = "SELECT photo_s3_key FROM students WHERE id = ?";
  update_photo = "UPDATE students SET photo_s3_key = ? WHERE id = ?";
  messages = student_messages;
}

abbrev written_student : Student → Student → Student
written_student new old = record old {
  first_name = new.first_name;
  last_name = new.last_name;
  email = new.email;
  class = new.class;
}

abbrev pub student_columns : Columns Student
student_columns = record {
  selected = λ s. record s { photo_s3_key = "" };
  patch_selected = λ s. record s { photo_s3_key = "" };
  written = written_student;
  tx_written = written_student;
}
