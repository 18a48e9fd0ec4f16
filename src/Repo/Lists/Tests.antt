-- ===== src/Repo/Lists/Tests.antt =====
-- Runs of the list queries.
use student_system_go.Common.{
  ◌≡◌, refl, ◌↔◌, Bool, true, false, Option, none, some, List, [], ◌∷◌, length,
}
use student_system_go.Common.Int.{pos, negsuc, ◌-ℤ◌, ◌*ℤ◌}
use student_system_go.Go.{ok, err}
use student_system_go.Reflect.{Value, int, text}
use student_system_go.Models.{Student, Teacher}
use student_system_go.Entity.Teachers.{scan_teacher}
use student_system_go.Sql.{Sql, Pool, no_rows, row, refused, connect_read_db}
use student_system_go.Query.{Params, add_sorting, add_filters}
use student_system_go.Query.Safe.{marks}
use student_system_go.Repo.Lists.{
  scan_rows, student_listing, teacher_listing, exec_listing, list_query, offset, page_query,
  get_list, get_students_db_handler, get_students_by_teacher_id_from_db,
  get_student_count_by_teacher_id_from_db,
}
use student_system_go.Repo.Lists.Balanced.{page_query-marks}
use student_system_go.Repo.Lists.Complete.{Reads, get_list_iff}

-- A server that answers each query of a list with the same rows, which an error may cut short, and
-- counts two rows.
abbrev Answer : Type 0
Answer = Option (List (List Value) × Bool)

abbrev lists : Sql
lists = record {
  S = Answer;
  query_row = λ q args a. no_rows;
  read_row = λ q args a. row (int (pos 2) ∷ []);
  query = λ q args a. a;
  prepare = λ q a. false;
  exec = λ q args a. (refused "read only", a);
  begin = λ a. (false, a);
  tx_exec = λ q args a. (refused "no transaction", a);
  commit = λ a. (false, a);
  rollback = λ a. a;
}

abbrev grace_row : List Value
grace_row = int (pos 1) ∷ text "Grace" ∷ text "Hopper" ∷ text "g@x.org" ∷ text "10A" ∷ []

abbrev math_row : List Value
math_row =
    int (pos 1) ∷ text "Emmy" ∷ text "Noether" ∷ text "e@x.org" ∷ text "10A" ∷ text "math" ∷ []

abbrev grace : Student
grace = record {
  id = pos 1;
  first_name = "Grace";
  last_name = "Hopper";
  email = "g@x.org";
  class = "10A";
  photo_s3_key = "";
}

abbrev emmy : Teacher
emmy = record {
  id = pos 1;
  first_name = "Emmy";
  last_name = "Noether";
  email = "e@x.org";
  class = "10A";
  subject = "math";
  photo_s3_key = "";
}

abbrev serving : Answer → Pool lists
serving a = record { ready = true; read_ready = true; server = a }

abbrev by_class : Params
by_class = ("class", "10A") ∷ ("sortby", "email:desc") ∷ []

page_tests :
    (page_query ("class" ∷ []) (("class", "10A") ∷ []) (pos 10) (pos 3) ≡ (
      "SELECT id, first_name, last_name, email, class FROM students WHERE 1=1 AND class = ? LIMIT ? OFFSET ?",
      text "10A" ∷ int (pos 10) ∷ int (pos 20) ∷ [],
    ))
    × (offset (pos 0) (pos 10) ≡ negsuc 9)
    × (offset (pos 9223372036854775807) (pos 2) ≡ negsuc 3)
unfolding page_query list_query offset add_sorting add_filters ◌-ℤ◌ ◌*ℤ◌
page_tests = (refl, refl, refl)

list_tests :
    ((get_students_db_handler lists [] by_class
        (pos 10)
        (pos 1)
        (serving (some (grace_row ∷ [], true)))).0
      ≡ ok (grace ∷ [], pos 2))
    × ((get_list lists student_listing [] by_class (serving (some (math_row ∷ [], true)))).0
        ≡ err "Failed to scan student")
    × (get_students_by_teacher_id_from_db lists "1" (serving (some (grace_row ∷ [], true)))
        ≡ ([], ok (grace ∷ [])))
    × (get_students_by_teacher_id_from_db lists "1" (serving (some (grace_row ∷ [], false))) ≡ (
      "Error occurred while retrieving students" ∷ [],
      err "Error occurred while retrieving students",
    ))
    × ((get_student_count_by_teacher_id_from_db lists "1" (serving none)).0 ≡ ok (pos 2))
unfolding get_students_db_handler get_list get_students_by_teacher_id_from_db
    get_student_count_by_teacher_id_from_db connect_read_db scan_rows
list_tests = (refl, refl, refl, refl, refl)

page_query-marks_example :
    (marks (page_query ("class" ∷ []) by_class (pos 10) (pos 1)).0
      ≡ length (page_query ("class" ∷ []) by_class (pos 10) (pos 1)).1)
    × (marks (list_query teacher_listing.base ("class" ∷ []) by_class).0
        ≡ length (list_query teacher_listing.base ("class" ∷ []) by_class).1)
    × (marks (list_query exec_listing.base ("class" ∷ []) by_class).0
        ≡ length (list_query exec_listing.base ("class" ∷ []) by_class).1)
page_query-marks_example = page_query-marks ("class" ∷ []) by_class (pos 10) (pos 1) (refl, tt)

-- The second row never came.
get_list_iff_example :
    (get_list lists teacher_listing [] by_class (serving (some (math_row ∷ [], false)))
      ≡ (ok (emmy ∷ []), serving (some (math_row ∷ [], false))))
    ↔ Reads lists scan_teacher
        (list_query teacher_listing.base [] by_class).0
        (list_query teacher_listing.base [] by_class).1
        (serving (some (math_row ∷ [], false)))
        (emmy ∷ [])
get_list_iff_example =
    get_list_iff lists teacher_listing [] by_class (serving (some (math_row ∷ [], false)))
      (emmy ∷ [])
