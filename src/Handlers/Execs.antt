-- ===== src/Handlers/Execs.antt =====
-- internal/api/handlers/execs.go: the roles and messages of its handlers.
use student_system_go.Common.{◌≡◌, refl, ℕ, List, Option, [], ◌∷◌, some}
use student_system_go.Go.{⊤}
use student_system_go.Models.{Exec}
use student_system_go.Codes.{Bytes}
use student_system_go.Passwords.{Argon2}
use student_system_go.Repo.AddExecs.{add_execs_db_handler}
use student_system_go.Sql.{Sql}
use student_system_go.Cache.{Redis}
use student_system_go.Entity.Execs.{exec_entity}
use student_system_go.Http.{failed, World, Handler, authorize_user, with_role}
use student_system_go.Handlers.{Request, Routes, get_one, add, patch_one, delete_one, patch_all}

abbrev pub exec_routes : Routes
exec_routes = record {
  list_prefix = "execs:list:";
  read_id_message = "Invalid student ID";
  write_id_message = "Invalid Exec ID";
  read_roles = "admin" ∷ [];
  add_roles = "admin" ∷ [];
  edit_roles = "admin" ∷ [];
  admin_roles = "admin" ∷ [];
}

module _ (db : Sql) (redis : Redis) where
  abbrev get_one_exec_handler : Request → Handler (World db redis) Exec
  get_one_exec_handler = get_one db redis exec_entity exec_routes

  -- The passwords are hashed with what `rand.Read` draws for each exec.
  abbrev add_execs_handler :
      Argon2 → (ℕ → Option Bytes) → Request → Handler (World db redis) (List Exec)
  add_execs_handler argon2 salt_at =
      add db redis exec_entity exec_routes (add_execs_db_handler db argon2 salt_at)

  abbrev patch_one_execs_handler : Request → Handler (World db redis) Exec
  patch_one_execs_handler = patch_one db redis exec_entity exec_routes

  abbrev delete_one_exec_handler : Request → Handler (World db redis) ⊤
  delete_one_exec_handler = delete_one db redis exec_entity exec_routes

  abbrev patch_execs_handler : Request → Handler (World db redis) ⊤
  patch_execs_handler = patch_all db redis exec_entity exec_routes

  -- A role that no handler lists is refused by each of them.
  refused_tests :
      (argon2 : Argon2) (salt_at : ℕ → Option Bytes) (r : Request) (w : World db redis)
      → (get_one_exec_handler (record r { role = some "student" }) w
          ≡ (failed 403 "user not authorised", w))
        × (add_execs_handler argon2 salt_at (record r { role = some "student" }) w
            ≡ (failed 403 "user not authorised", w))
        × (patch_one_execs_handler (record r { role = some "student" }) w
            ≡ (failed 403 "user not authorised", w))
        × (delete_one_exec_handler (record r { role = some "student" }) w
            ≡ (failed 403 "user not authorised", w))
        × (patch_execs_handler (record r { role = some "student" }) w
            ≡ (failed 403 "user not authorised", w))
  unfolding with_role authorize_user get_one add patch_one delete_one patch_all
  refused_tests argon2 salt_at r w = (refl, refl, refl, refl, refl)
