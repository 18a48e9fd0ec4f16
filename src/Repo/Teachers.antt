-- ===== src/Repo/Teachers.antt =====
-- internal/repository/sqlconnect/teachers_crud.go and teachers_photo.go: the operations on the teachers.
use student_system_go.Common.{◌≡◌, refl, String, List, [], false}
use student_system_go.Common.Int.{ℤ, pos}
use student_system_go.Go.{err, ⊤, Call}
use student_system_go.Models.{Teacher, zero_teacher}
use student_system_go.Reflect.Json.{Update}
use student_system_go.Sql.{Sql, Pool}
use student_system_go.Entity.Teachers.{teacher_entity}
use student_system_go.Repo.{get_by_id, add_rows, update_row, patch_row, delete_row}
use student_system_go.Repo.Batch.{patch_rows, delete_rows}
use student_system_go.Repo.Photo.{get_photo_key, set_photo_key}

module _ (db : Sql) where
  abbrev get_teacher_by_id : ℤ → Call (Pool db) Teacher
  get_teacher_by_id = get_by_id db teacher_entity

  abbrev add_teachers_db_handler : List Teacher → Call (Pool db) (List Teacher)
  add_teachers_db_handler = add_rows db teacher_entity

  abbrev update_teacher : ℤ → Teacher → Call (Pool db) Teacher
  update_teacher = update_row db teacher_entity

  abbrev patch_teachers : List Update → Call (Pool db) ⊤
  patch_teachers = patch_rows db teacher_entity

  abbrev patch_one_teacher : ℤ → Update → Call (Pool db) Teacher
  patch_one_teacher = patch_row db teacher_entity

  abbrev delete_one_teacher : ℤ → Call (Pool db) ⊤
  delete_one_teacher = delete_row db teacher_entity

  abbrev delete_teachers : List ℤ → Call (Pool db) (List ℤ)
  delete_teachers = delete_rows db teacher_entity

  abbrev get_teacher_photo_key : ℤ → Call (Pool db) String
  get_teacher_photo_key = get_photo_key db teacher_entity

  abbrev set_teacher_photo_key : ℤ → String → Call (Pool db) ⊤
  set_teacher_photo_key = set_photo_key db teacher_entity

  abbrev unopened : db.S → Pool db
  unopened s = record { ready = false; read_ready = false; server = s }

  -- Before the pools are opened every operation fails, and changes nothing.
  closed_tests :
      (s : db.S)
      → (get_teacher_by_id (pos 1) (unopened s) ≡ (err "Failed to connect to database", unopened s))
        × (add_teachers_db_handler [] (unopened s)
            ≡ (err "Failed to connect to database", unopened s))
        × (update_teacher (pos 1) zero_teacher (unopened s)
            ≡ (err "Failed to connect to database", unopened s))
        × (patch_teachers [] (unopened s) ≡ (err "Failed to connect to database", unopened s))
        × (patch_one_teacher (pos 1) [] (unopened s)
            ≡ (err "Failed to connect to database", unopened s))
        × (delete_one_teacher (pos 1) (unopened s)
            ≡ (err "Failed to connect to database", unopened s))
        × (delete_teachers [] (unopened s) ≡ (err "Failed to connect to database", unopened s))
        × (get_teacher_photo_key (pos 1) (unopened s)
            ≡ (err "Failed to connect to database", unopened s))
        × (set_teacher_photo_key (pos 1) "k" (unopened s)
            ≡ (err "Failed to connect to database", unopened s))
  unfolding add_rows delete_row delete_rows get_by_id get_photo_key patch_row patch_rows
      set_photo_key update_row
  closed_tests s = (refl, refl, refl, refl, refl, refl, refl, refl, refl)
