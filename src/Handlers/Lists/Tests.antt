-- ===== src/Handlers/Lists/Tests.antt =====
-- Requests for lists, to a database that answers nothing and to one whose answer is cut short.
use student_system_go.Common.{◌≡◌, refl, ◌∷◌, String, Bool, true, false, none, some, []}
use student_system_go.Common.Int.{pos}
use student_system_go.Common.Text.{atoi}
use student_system_go.Go.{ok}
use student_system_go.Reflect.{int, text}
use student_system_go.Models.{Student}
use student_system_go.Sql.{Sql, no_rows, row, refused, connect_read_db}
use student_system_go.Cache.{Codec, get_or_fetch}
use student_system_go.Cache.Memory.{one_slot}
use student_system_go.Query.{Params, get_pagination_params}
use student_system_go.Repo.Lists.{
  scan_rows, get_students_db_handler, get_students_by_teacher_id_from_db,
  get_student_count_by_teacher_id_from_db,
}
use student_system_go.Http.{failed, sent, World, authorize_user, with_role}
use student_system_go.Handlers.{Request, get_all}
use student_system_go.Handlers.Lists.{
  CachedStudents, get_students_handler, get_students_by_teacher_id, get_student_count_by_teacher_id,
}
use student_system_go.Handlers.Lists.Twice.{AnswersRole, get_students_by_teacher_id-Answers}

-- A server with one student and a total of two; `false` cuts the iteration short.
abbrev one_student : Sql
one_student = record {
  S = Bool;
  query_row = λ q args b. no_rows;
  read_row = λ q args b. row (int (pos 2) ∷ []);
  query = λ q args b.
      some
        ((int (pos 1) ∷ text "Grace" ∷ text "Hopper" ∷ text "g@x.org" ∷ text "10A" ∷ []) ∷ [], b);
  prepare = λ q b. false;
  exec = λ q args b. (refused "read only", b);
  begin = λ b. (false, b);
  tx_exec = λ q args b. (refused "no transaction", b);
  commit = λ b. (false, b);
  rollback = λ b. b;
}

abbrev grace : Student
grace = record {
  id = pos 1;
  first_name = "Grace";
  last_name = "Hopper";
  email = "g@x.org";
  class = "10A";
  photo_s3_key = "";
}

abbrev world : Bool → World one_student one_slot
world complete = record {
  pool = record { ready = true; read_ready = true; server = complete };
  client = record { ready = false; store = none };
}

abbrev request : Request
request = record { role = some "teacher"; id = "1"; raw_query = ""; body = none }

-- A codec through which every list is that of `grace`.
abbrev grace_codec : Codec CachedStudents
grace_codec = record {
  marshal = λ c. ok "grace";
  unmarshal = λ t c. (ok tt, record { students = grace ∷ []; total = pos 2 });
  zero_value = record { students = []; total = pos 0 };
}

abbrev no_params : String → Params
no_params query = []

list_handler_tests :
    ((get_students_handler one_student one_slot no_params [] grace_codec request (world true)).0
      ≡ sent 200
          (record { count = pos 2; page = pos 1; page_size = pos 10; students = grace ∷ [] }))
    × ((get_students_by_teacher_id one_student one_slot request (world true)).0
        ≡ sent 200 (grace ∷ []))
    × ((get_students_by_teacher_id one_student one_slot request (world false)).0
        ≡ failed 500
            "Error occurred while retrieving students\nError occurred while retrieving students")
    × ((get_student_count_by_teacher_id one_student one_slot request (world true)).0
        ≡ failed 403 "user not authorised")
    × ((get_student_count_by_teacher_id one_student one_slot
          (record request { role = some "exec" })
          (world true)).0
        ≡ sent 200 (pos 2))
unfolding get_students_handler get_students_by_teacher_id get_student_count_by_teacher_id with_role
    authorize_user get_students_by_teacher_id_from_db get_student_count_by_teacher_id_from_db
    connect_read_db scan_rows get_all get_or_fetch get_pagination_params get_students_db_handler
    atoi
list_handler_tests = (refl, refl, refl, refl, refl)

get_students_by_teacher_id-Answers_example :
    AnswersRole one_student
      (some "teacher")
      "1"
      (world false)
      (get_students_by_teacher_id one_student one_slot request (world false))
get_students_by_teacher_id-Answers_example =
    get_students_by_teacher_id-Answers one_student request (world false)
