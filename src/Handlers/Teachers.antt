-- ===== src/Handlers/Teachers.antt =====
-- internal/api/handlers/teachers.go: the roles and messages of its handlers.
use student_system_go.Common.{◌≡◌, refl, List, [], ◌∷◌, some}
use student_system_go.Common.Int.{ℤ}
use student_system_go.Go.{⊤}
use student_system_go.Models.{Teacher}
use student_system_go.Sql.{Sql}
use student_system_go.Cache.{Redis}
use student_system_go.Repo.{add_rows}
use student_system_go.Entity.Teachers.{teacher_entity}
use student_system_go.Http.{failed, World, Handler, authorize_user, with_role}
use student_system_go.Handlers.{
  Request, Routes, get_one, add, update, patch_one, delete_one, patch_all, delete_all,
}

abbrev pub teacher_routes : Routes
teacher_routes = record {
  list_prefix = "teachers:list:";
  read_id_message = "Invalid teacher ID";
  write_id_message = "Invalid teacher ID";
  read_roles = "admin" ∷ "manager" ∷ "exec" ∷ "teacher" ∷ [];
  add_roles = "admin" ∷ [];
  edit_roles = "admin" ∷ [];
  admin_roles = "admin" ∷ [];
}

module _ (db : Sql) (redis : Redis) where
  abbrev get_one_teacher_handler : Request → Handler (World db redis) Teacher
  get_one_teacher_handler = get_one db redis teacher_entity teacher_routes

  abbrev add_teacher_handler : Request → Handler (World db redis) (List Teacher)
  add_teacher_handler = add db redis teacher_entity teacher_routes (add_rows db teacher_entity)

  abbrev update_teacher_handler : Request → Handler (World db redis) Teacher
  update_teacher_handler = update db redis teacher_entity teacher_routes

  abbrev patch_one_teacher_handler : Request → Handler (World db redis) Teacher
  patch_one_teacher_handler = patch_one db redis teacher_entity teacher_routes

  abbrev delete_one_teacher_handler : Request → Handler (World db redis) ⊤
  delete_one_teacher_handler = delete_one db redis teacher_entity teacher_routes

  abbrev patch_teachers_handler : Request → Handler (World db redis) ⊤
  patch_teachers_handler = patch_all db redis teacher_entity teacher_routes

  abbrev delete_teachers_handler : Request → Handler (World db redis) (List ℤ)
  delete_teachers_handler = delete_all db redis teacher_entity teacher_routes

  -- A role that no handler lists is refused by each of them.
  refused_tests :
      (r : Request) (w : World db redis)
      → (get_one_teacher_handler (record r { role = some "student" }) w
          ≡ (failed 403 "user not authorised", w))
        × (add_teacher_handler (record r { role = some "student" }) w
            ≡ (failed 403 "user not authorised", w))
        × (update_teacher_handler (record r { role = some "student" }) w
            ≡ (failed 403 "user not authorised", w))
        × (patch_one_teacher_handler (record r { role = some "student" }) w
            ≡ (failed 403 "user not authorised", w))
        × (delete_one_teacher_handler (record r { role = some "student" }) w
            ≡ (failed 403 "user not authorised", w))
        × (patch_teachers_handler (record r { role = some "student" }) w
            ≡ (failed 403 "user not authorised", w))
        × (delete_teachers_handler (record r { role = some "student" }) w
            ≡ (failed 403 "user not authorised", w))
  unfolding with_role authorize_user get_one add update patch_one delete_one patch_all delete_all
  refused_tests r w = (refl, refl, refl, refl, refl, refl, refl)
