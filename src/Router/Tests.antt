-- ===== src/Router/Tests.antt =====
-- Requests and their routes.
use student_system_go.Common.{◌≡◌, refl, inl, inr}
use student_system_go.Common.Text.{has_prefix, split, cut_at}
use student_system_go.Router.{parse_pattern, handled, not_found, method_not_allowed, main_router}
use student_system_go.Router.Apart.{main_router-handles}

-- A request with the wrong method is answered 405 for an exec and 404 for a student.
router_tests :
    (main_router "GET" "/students/42" ≡ handled "GET /students/{id}" "GetOneStudentHandler")
    × (main_router "HEAD" "/teachers" ≡ handled "GET /teachers" "GetTeachersHandler")
    × (main_router "POST" "/execs/login" ≡ handled "POST /execs/login" "LoginHandler")
    × (main_router "POST" "/execs/7/updatepassword"
        ≡ handled "POST /execs/{id}/updatepassword" "UpdatePasswordHandler")
    × (main_router "PUT" "/execs/7" ≡ method_not_allowed)
    × (main_router "POST" "/students/7" ≡ not_found)
    × (main_router "GET" "/students/" ≡ not_found)
unfolding main_router parse_pattern split has_prefix cut_at
router_tests = (refl, refl, refl, refl, refl, refl, refl)

main_router-handles_example :
    main_router "GET" "/teachers/7/students"
    ≡ handled "GET /teachers/{id}/students" "GetStudentsByTeacherId"
unfolding parse_pattern split has_prefix cut_at
main_router-handles_example =
    main_router-handles "GET" "/teachers/7/students" "GET /teachers/{id}/students"
      "GetStudentsByTeacherId" (inr (inr (inr (inr (inr (inr (inr (inr (inl refl))))))))) refl
