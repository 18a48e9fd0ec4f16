-- ===== src/Repo/Students.antt =====
-- internal/repository/sqlconnect/students_crud.go and students_photo.go: the operations on the students.
use student_system_go.Common.{◌≡◌, refl, String, List, [], false}
use student_system_go.Common.Int.{ℤ, pos}
use student_system_go.Go.{err, ⊤, Call}
use student_system_go.Models.{Student, zero_student}
use student_system_go.Reflect.Json.{Update}
use student_system_go.Sql.{Sql, Pool}
use student_system_go.Entity.Students.{student_entity}
use student_system_go.Repo.{get_by_id, add_rows, update_row, patch_row, delete_row}
use student_system_go.Repo.Batch.{patch_rows, delete_rows}
use student_system_go.Repo.Photo.{get_photo_key, set_photo_key}

module _ (db : Sql) where
  abbrev get_student_by_id : ℤ → Call (Pool db) Student
  get_student_by_id = get_by_id db student_entity

  abbrev add_students_db_handler : List Student → Call (Pool db) (List Student)
  add_students_db_handler = add_rows db student_entity

  abbrev update_student : ℤ → Student → Call (Pool db) Student
  update_student = update_row db student_entity

  abbrev patch_students : List Update → Call (Pool db) ⊤
  patch_students = patch_rows db student_entity

  abbrev patch_one_student : ℤ → Update → Call (Pool db) Student
  patch_one_student = patch_row db student_entity

  abbrev delete_one_student : ℤ → Call (Pool db) ⊤
  delete_one_student = delete_row db student_entity

  abbrev delete_students : List ℤ → Call (Pool db) (List ℤ)
  delete_students = delete_rows db student_entity

  abbrev get_student_photo_key : ℤ → Call (Pool db) String
  get_student_photo_key = get_photo_key db student_entity

  abbrev set_student_photo_key : ℤ → String → Call (Pool db) ⊤
  set_student_photo_key = set_photo_key db student_entity

  abbrev unopened : db.S → Pool db
  unopened s = record { ready = false; read_ready = false; server = s }

  -- Before the pools are opened every operation fails, and changes nothing.
  closed_tests :
      (s : db.S)
      → (get_student_by_id (pos 1) (unopened s) ≡ (err "Failed to connect to database", unopened s))
        × (add_students_db_handler [] (unopened s)
            ≡ (err "Failed to connect to database", unopened s))
        × (update_student (pos 1) zero_student (unopened s)
            ≡ (err "Failed to connect to database", unopened s))
        × (patch_students [] (unopened s) ≡ (err "Failed to connect to database", unopened s))
        × (patch_one_student (pos 1) [] (unopened s)
            ≡ (err "Failed to connect to database", unopened s))
        × (delete_one_student (pos 1) (unopened s)
            ≡ (err "Failed to connect to database", unopened s))
        × (delete_students [] (unopened s) ≡ (err "Failed to connect to database", unopened s))
        × (get_student_photo_key (pos 1) (unopened s)
            ≡ (err "Failed to connect to database", unopened s))
        × (set_student_photo_key (pos 1) "k" (unopened s)
            ≡ (err "Failed to connect to database", unopened s))
  unfolding add_rows delete_row delete_rows get_by_id get_photo_key patch_row patch_rows
      set_photo_key update_row
  closed_tests s = (refl, refl, refl, refl, refl, refl, refl, refl, refl)
