-- ===== src/Handlers/Students.antt =====
-- internal/api/handlers/students.go: the roles and messages of its handlers.
use student_system_go.Common.{◌≡◌, refl, List, [], ◌∷◌, some}
use student_system_go.Common.Int.{ℤ}
use student_system_go.Go.{⊤}
use student_system_go.Models.{Student}
use student_system_go.Sql.{Sql}
use student_system_go.Cache.{Redis}
use student_system_go.Repo.{add_rows}
use student_system_go.Entity.Students.{student_entity}
use student_system_go.Http.{failed, World, Handler, authorize_user, with_role}
use student_system_go.Handlers.{
  Request, Routes, get_one, add, update, patch_one, delete_one, patch_all, delete_all,
}

abbrev pub student_routes : Routes
student_routes = record {
  list_prefix = "students:list:";
  read_id_message = "Invalid student ID";
  write_id_message = "Invalid student ID";
  read_roles = "admin" ∷ "manager" ∷ "exec" ∷ "teacher" ∷ [];
  add_roles = "admin" ∷ "manager" ∷ [];
  edit_roles = "admin" ∷ "manager" ∷ [];
  admin_roles = "admin" ∷ [];
}

module _ (db : Sql) (redis : Redis) where
  abbrev get_one_student_handler : Request → Handler (World db redis) Student
  get_one_student_handler = get_one db redis student_entity student_routes

  abbrev add_student_handler : Request → Handler (World db redis) (List Student)
  add_student_handler = add db redis student_entity student_routes (add_rows db student_entity)

  abbrev update_student_handler : Request → Handler (World db redis) Student
  update_student_handler = update db redis student_entity student_routes

  abbrev patch_one_student_handler : Request → Handler (World db redis) Student
  patch_one_student_handler = patch_one db redis student_entity student_routes

  abbrev delete_one_student_handler : Request → Handler (World db redis) ⊤
  delete_one_student_handler = delete_one db redis student_entity student_routes

  abbrev patch_students_handler : Request → Handler (World db redis) ⊤
  patch_students_handler = patch_all db redis student_entity student_routes

  abbrev delete_students_handler : Request → Handler (World db redis) (List ℤ)
  delete_students_handler = delete_all db redis student_entity student_routes

  -- A role that no handler lists is refused by each of them.
  refused_tests :
      (r : Request) (w : World db redis)
      → (get_one_student_handler (record r { role = some "student" }) w
          ≡ (failed 403 "user not authorised", w))
        × (add_student_handler (record r { role = some "student" }) w
            ≡ (failed 403 "user not authorised", w))
        × (update_student_handler (record r { role = some "student" }) w
            ≡ (failed 403 "user not authorised", w))
        × (patch_one_student_handler (record r { role = some "student" }) w
            ≡ (failed 403 "user not authorised", w))
        × (delete_one_student_handler (record r { role = some "student" }) w
            ≡ (failed 403 "user not authorised", w))
        × (patch_students_handler (record r { role = some "student" }) w
            ≡ (failed 403 "user not authorised", w))
        × (delete_students_handler (record r { role = some "student" }) w
            ≡ (failed 403 "user not authorised", w))
  unfolding with_role authorize_user get_one add update patch_one delete_one patch_all delete_all
  refused_tests r w = (refl, refl, refl, refl, refl, refl, refl)
