-- ===== src/Repo/Execs.antt =====
-- internal/repository/sqlconnect/execs_crud.go and execs_photo.go: the operations on the execs.
use student_system_go.Common.{◌≡◌, refl, String, List, [], false}
use student_system_go.Common.Int.{ℤ, pos}
use student_system_go.Go.{err, ⊤, Call}
use student_system_go.Models.{Exec}
use student_system_go.Reflect.Json.{Update}
use student_system_go.Sql.{Sql, Pool}
use student_system_go.Entity.Execs.{exec_entity}
use student_system_go.Repo.{get_by_id, patch_row, delete_row}
use student_system_go.Repo.Batch.{patch_rows}
use student_system_go.Repo.Photo.{get_photo_key, set_photo_key}

module _ (db : Sql) where
  abbrev get_exec_by_id : ℤ → Call (Pool db) Exec
  get_exec_by_id = get_by_id db exec_entity

  abbrev patch_execs : List Update → Call (Pool db) ⊤
  patch_execs = patch_rows db exec_entity

  abbrev patch_one_exec : ℤ → Update → Call (Pool db) Exec
  patch_one_exec = patch_row db exec_entity

  abbrev delete_one_exec : ℤ → Call (Pool db) ⊤
  delete_one_exec = delete_row db exec_entity

  abbrev get_exec_photo_key : ℤ → Call (Pool db) String
  get_exec_photo_key = get_photo_key db exec_entity

  abbrev set_exec_photo_key : ℤ → String → Call (Pool db) ⊤
  set_exec_photo_key = set_photo_key db exec_entity

  abbrev unopened : db.S → Pool db
  unopened s = record { ready = false; read_ready = false; server = s }

  -- Before the pools are opened every operation fails, and changes nothing.
  closed_tests :
      (s : db.S)
      → (get_exec_by_id (pos 1) (unopened s) ≡ (err "Failed to connect to database", unopened s))
        × (patch_execs [] (unopened s) ≡ (err "Failed to connect to database", unopened s))
        × (patch_one_exec (pos 1) [] (unopened s)
            ≡ (err "Failed to connect to database", unopened s))
        × (delete_one_exec (pos 1) (unopened s) ≡ (err "Failed to connect to database", unopened s))
        × (get_exec_photo_key (pos 1) (unopened s)
            ≡ (err "Failed to connect to database", unopened s))
        × (set_exec_photo_key (pos 1) "k" (unopened s)
            ≡ (err "Failed to connect to database", unopened s))
  unfolding delete_row get_by_id get_photo_key patch_row patch_rows set_photo_key
  closed_tests s = (refl, refl, refl, refl, refl, refl)
