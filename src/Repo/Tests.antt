-- ===== src/Repo/Tests.antt =====
-- Runs of the repository on the servers in memory, and the theorems at concrete inputs.
use student_system_go.Common.{
  ◌≡◌, refl, ◌⊎◌, String, true, false, none, some, List, [], ◌∷◌, All, if◌then◌else◌,
}
use student_system_go.Common.Int.{pos, ◌==ℤ◌}
use student_system_go.Common.Text.{scan_digits, atoi}
use student_system_go.Go.{ok}
use student_system_go.Models.{Student, Exec}
use student_system_go.Reflect.Json.{Json, Update, lookup}
use student_system_go.Reflect.Patch.{set_first, set_each, patch_checked, patch_unchecked}
use student_system_go.Sql.{Pool, connect_db}
use student_system_go.Sql.Laws.{View}
use student_system_go.Sql.Memory.{memory, memory-IsTable}
use student_system_go.Sql.OneExec.{one_exec, one_exec-IsTable}
use student_system_go.Entity.Students.{student_entity, student_columns}
use student_system_go.Entity.Execs.{exec_entity}
use student_system_go.Repo.{update_row, patch_row, delete_row}
use student_system_go.Repo.Batch.{patch_round, patch_rounds, patch_rows, delete_rows}
use student_system_go.Repo.Batch.Atomic.{Ends, patch_rows-Ends}
use student_system_go.Repo.Batch.Replay.{IsPatched, SomeMismatch, replay, patch_rows-Replays}
use student_system_go.Repo.Batch.Delete.{DeleteEnds, delete_rows-DeleteEnds}
use student_system_go.Repo.Single.{SingleEnds, IsUpdated, IsPatchedRow, single_writes-SingleEnds}
use student_system_go.Repo.Single.Removed.{IsDeleted, delete_row-IsDeleted}
use student_system_go.Repo.ExecPatch.{HasNoRole, patch_row-HasNoRole}
use student_system_go.Repo.Photo.{set_photo_key}
use student_system_go.Repo.Photo.Rows.{Photos}
use student_system_go.Repo.Photo.Memory.{photo_memory, photo_memory-IsPhotoTable}
use student_system_go.Repo.Photo.Keys.{SetEnds, set_photo_key-SetEnds}

abbrev ada : Student
ada = record {
  id = pos 1;
  first_name = "Ada";
  last_name = "Byron";
  email = "ada@x.org";
  class = "10A";
  photo_s3_key = "";
}

abbrev bob : Student
bob = record {
  id = pos 2;
  first_name = "Bob";
  last_name = "Noyce";
  email = "bob@x.org";
  class = "10B";
  photo_s3_key = "";
}

abbrev two_students : View Student
two_students j = if j ==ℤ pos 1 then some ada else if j ==ℤ pos 2 then some bob else none

abbrev pool : Pool memory
pool = record {
  ready = true;
  read_ready = true;
  server = record { rows = two_students; tx = none; up = true };
}

-- Two members for the first student, each of which changes one column.
abbrev twice : List Update
twice =
    (("id", Json.str "1") ∷ ("first_name", Json.str "Augusta") ∷ [])
    ∷ (("id", Json.str "1") ∷ ("email", Json.str "king@x.org") ∷ [])
    ∷ []

abbrev after_twice : Pool memory
after_twice = (patch_rows memory student_entity twice pool).1

-- The first change is lost: the second member was computed from the row as it was before the call.
patch_rows-lost_update :
    (memory-IsTable.row_at after_twice.server (pos 1) ≡ some (record ada { email = "king@x.org" }))
unfolding patch_rows patch_rounds patch_round lookup atoi scan_digits patch_checked set_first
    connect_db memory-IsTable
patch_rows-lost_update = refl

patch_rows-Ends_example : Ends memory-IsTable pool (patch_rows memory student_entity twice pool)
unfolding memory-IsTable
patch_rows-Ends_example = patch_rows-Ends memory-IsTable twice pool refl

twice_runs : patch_rows memory student_entity twice pool ≡ (ok tt, after_twice)
unfolding patch_rows patch_rounds patch_round lookup atoi scan_digits patch_checked set_first
    connect_db
twice_runs = refl

patch_rows-Replays_example :
    (All (IsPatched student_entity student_columns (memory-IsTable.row_at pool.server)) twice
      × (memory-IsTable.row_at after_twice.server
          ≡ replay student_entity student_columns
              (memory-IsTable.row_at pool.server)
              twice
              (memory-IsTable.row_at pool.server)))
    ⊎ (SomeMismatch student_entity student_columns (memory-IsTable.row_at pool.server) twice
        × (memory-IsTable.row_at after_twice.server ≡ memory-IsTable.row_at pool.server))
patch_rows-Replays_example = patch_rows-Replays memory-IsTable twice pool after_twice twice_runs

delete_rows-DeleteEnds_example :
    DeleteEnds memory-IsTable
      (pos 2 ∷ pos 1 ∷ [])
      (memory-IsTable.row_at pool.server)
      (delete_rows memory student_entity (pos 2 ∷ pos 1 ∷ []) pool)
unfolding memory-IsTable
delete_rows-DeleteEnds_example =
    delete_rows-DeleteEnds memory-IsTable (pos 2 ∷ pos 1 ∷ []) pool refl

abbrev rename : Update
rename = ("first_name", Json.str "Augusta") ∷ []

single_writes-SingleEnds_example :
    SingleEnds memory-IsTable
      (memory-IsTable.row_at pool.server)
      (IsUpdated memory-IsTable (pos 1) bob (memory-IsTable.row_at pool.server))
      (update_row memory student_entity (pos 1) bob pool)
    × SingleEnds memory-IsTable
        (memory-IsTable.row_at pool.server)
        (IsPatchedRow memory-IsTable (pos 1) rename (memory-IsTable.row_at pool.server))
        (patch_row memory student_entity (pos 1) rename pool)
single_writes-SingleEnds_example = single_writes-SingleEnds memory-IsTable (pos 1) bob rename pool

delete_row-IsDeleted_example :
    IsDeleted memory-IsTable
      (pos 2)
      (memory-IsTable.row_at pool.server)
      (delete_row memory student_entity (pos 2) pool)
delete_row-IsDeleted_example = delete_row-IsDeleted memory-IsTable (pos 2) pool

-- A manager whose first name is changed.
abbrev grace : Exec
grace = record {
  id = pos 7;
  first_name = "Grace";
  last_name = "Hopper";
  email = "g@x.org";
  username = "grace";
  password = "c2FsdA==.aGFzaA==";
  password_changed_at = none;
  user_created_at = some "2026-01-01";
  password_reset_code = none;
  password_reset_code_expires = none;
  inactive_status = false;
  role = "manager";
  photo_s3_key = "";
}

abbrev exec_pool : Pool one_exec
exec_pool = record { ready = true; read_ready = true; server = grace }

abbrev exec_rename : Update
exec_rename = ("firstname", Json.str "Amazing") ∷ []

abbrev patched_exec : Exec
patched_exec = record {
  id = pos 7;
  first_name = "Amazing";
  last_name = "Hopper";
  email = "g@x.org";
  username = "grace";
  password = "";
  password_changed_at = none;
  user_created_at = none;
  password_reset_code = none;
  password_reset_code_expires = none;
  inactive_status = false;
  role = "";
  photo_s3_key = "";
}

exec_rename_runs :
    (patch_row one_exec exec_entity (pos 7) exec_rename exec_pool).0 ≡ ok patched_exec
unfolding patch_row patch_unchecked set_each connect_db
exec_rename_runs = refl

patch_row-HasNoRole_example : HasNoRole one_exec-IsTable (pos 7) (
    one_exec-IsTable.row_at (patch_row one_exec exec_entity (pos 7) exec_rename exec_pool).1.server)
patch_row-HasNoRole_example =
    patch_row-HasNoRole one_exec-IsTable (pos 7) exec_rename exec_pool patched_exec
      ((λ h. cc, λ h. cc), tt) exec_rename_runs

abbrev photos : Photos
photos j = if j ==ℤ pos 42 then some none else none

abbrev photo_pool : Pool photo_memory
photo_pool = record { ready = true; read_ready = true; server = photos }

abbrev key : String
key = "photos/students/42/profile.jpg"

set_photo_key-SetEnds_example :
    SetEnds photo_memory-IsPhotoTable
      (pos 42)
      (some key)
      (photo_memory-IsPhotoTable.photos photos)
      (set_photo_key photo_memory student_entity (pos 42) key photo_pool)
set_photo_key-SetEnds_example =
    set_photo_key-SetEnds photo_memory-IsPhotoTable (pos 42) key photo_pool

key_set : (set_photo_key photo_memory student_entity (pos 42) key photo_pool).0 ≡ ok tt
unfolding set_photo_key connect_db
key_set = refl
