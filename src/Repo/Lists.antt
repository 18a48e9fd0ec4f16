-- ===== src/Repo/Lists.antt =====
-- The list queries of internal/repository/sqlconnect: GetStudentsDBHandler, GetTeachersDBHandler,
-- GetExecsDBHandler, and the students of a teacher with their count.
pub mod Balanced
pub mod Complete
mod Tests
use student_system_go.Common.{
  ℕ, ◌-◌, ◌%◌, ◌^◌, String, Bool, true, false, Option, none, some, List, [], ◌∷◌, ◌++◌, ltb,
  if◌then◌else◌,
}
use student_system_go.Common.Int.{ℤ, pos, negsuc, ◌-ℤ◌, ◌*ℤ◌}
use student_system_go.Common.Text.{◌<>◌}
use student_system_go.Go.{Result, ok, err, panic, Call, pure, raise, gets, ◌>>=◌, ◌>>◌}
use student_system_go.Reflect.{Value, int, text}
use student_system_go.Models.{Student, Teacher, Exec}
use student_system_go.Entity.Students.{scan_student}
use student_system_go.Entity.Teachers.{scan_teacher}
use student_system_go.Entity.Execs.{scan_exec}
use student_system_go.Sql.{Sql, Row, row, no_rows, failed, Pool, connect_read_db}
use student_system_go.Query.{Params, add_sorting, add_filters}
use student_system_go.Repo.{connect_failed, connect_read, or_none}

abbrev pub scan_next : {R : Type 0} → Option R → Option (List R) → Option (List R)
scan_next (some r) (some rs) = some (r ∷ rs)
scan_next _ _ = none

-- `for rows.Next() { rows.Scan(...) }`
unfoldable pub scan_rows :
    {R : Type 0} → (List Value → Option R) → List (List Value) → Option (List R)
scan_rows scan [] = some []
scan_rows scan (vs ∷ rows) = scan_next (scan vs) (scan_rows scan rows)

-- What the copies differ in.
pub record Listing (R : Type 0) : Type 0 where
  pub base : String
  pub scan : List Value → Option R
  pub query_failed : String
  pub scan_failed : String

abbrev pub student_listing : Listing Student
student_listing = record {
  base = "SELECT id, first_name, last_name, email, class FROM students WHERE 1=1";
  scan = scan_student;
  query_failed = "Failed to query students";
  scan_failed = "Failed to scan student";
}

abbrev pub teacher_listing : Listing Teacher
teacher_listing = record {
  base = "SELECT id, first_name, last_name, email, class, subject FROM teachers WHERE 1=1";
  scan = scan_teacher;
  query_failed = "Failed to query teachers";
  scan_failed = "Failed to scan teacher";
}

abbrev pub exec_listing : Listing Exec
exec_listing = record {
  base =
      "SELECT id, first_name, last_name, email,username, user_created_at,inactive_status,role FROM execs WHERE 1=1";
  scan = scan_exec;
  query_failed = "Failed to query execs";
  scan_failed = "Failed to scan exec";
}

-- The query of a list with its arguments. The columns are those of `AddFilters`, in its order.
unfoldable pub list_query : String → List String → Params → String × List Value
unfolding add_sorting add_filters
list_query base columns ps =
    let filtered = add_filters columns ps base [] in (add_sorting ps filtered.0, filtered.1)

-- An `int` of 64 bits.
abbrev pub signed64 : ℕ → ℤ
signed64 w = if ltb w (2 ^ 63) then pos w else negsuc (2 ^ 64 - 1 - w)

abbrev pub wrap64 : ℤ → ℤ
wrap64 (pos n) = signed64 (n % 2 ^ 64)
wrap64 (negsuc n) = signed64 (2 ^ 64 - 1 - n % 2 ^ 64)

-- `(page - 1) * limit`
unfoldable pub offset : ℤ → ℤ → ℤ
unfolding ◌-ℤ◌ ◌*ℤ◌
offset page limit = wrap64 (wrap64 (page -ℤ pos 1) *ℤ limit)

-- The query of a page of students
unfoldable pub page_query : List String → Params → ℤ → ℤ → String × List Value
unfolding list_query offset
page_query columns ps limit page =
    let listed = list_query student_listing.base columns ps in
    (listed.0 <> " LIMIT ? OFFSET ?", listed.1 ++ int limit ∷ int (offset page limit) ∷ [])

-- `SELECT COUNT(*)`
abbrev pub scan_count : Row → Option ℤ
scan_count (row (int n ∷ [])) = some n
scan_count _ = none

abbrev or_zero : Option ℤ → ℤ
or_zero none = pos 0
or_zero (some n) = n

abbrev pub students_of_query : String
students_of_query =
    "SELECT id, first_name, last_name, email, class FROM students WHERE class = (SELECT class FROM teachers WHERE id = ?)"

-- A message that is written to the response, with the status 500, and is also the error.
abbrev pub written_error : String → List String × Result (List Student)
written_error message = (message ∷ [], err message)

-- Here an error that ends the iteration is one of the query.
abbrev pub students_scanned : Bool → Option (List Student) → List String × Result (List Student)
students_scanned complete none = written_error "Failed to scan student data"
students_scanned false (some students) = written_error "Error occurred while retrieving students"
students_scanned true (some students) = ([], ok students)

abbrev pub students_read : Option (List (List Value) × Bool) → List String × Result (List Student)
unfolding scan_rows
students_read none = written_error "Failed to retrieve students for the teacher"
students_read (some (rows, complete)) = students_scanned complete (scan_rows scan_student rows)

module _ (db : Sql) where
  -- An error that ends the iteration is not asked for.
  abbrev pub read_rows :
      {R : Type 0} → Listing R → Option (List (List Value) × Bool) → Call (Pool db) (List R)
  unfolding scan_rows
  read_rows listing none = raise listing.query_failed
  read_rows listing (some (rows, complete)) =
      or_none (scan_rows listing.scan rows) listing.scan_failed

  abbrev pub read_list : {R : Type 0} → Listing R → String × List Value → Call (Pool db) (List R)
  unfolding scan_rows
  read_list listing (query, args) p = read_rows listing (db.query query args p.server) p

  -- `GetTeachersDBHandler` and `GetExecsDBHandler`
  unfoldable pub get_list :
      {R : Type 0} → Listing R → List String → Params → Call (Pool db) (List R)
  unfolding connect_read_db list_query scan_rows
  get_list listing columns ps = do
    connect_read db
    read_list listing (list_query listing.base columns ps)

  abbrev get_teachers_db_handler : List String → Params → Call (Pool db) (List Teacher)
  get_teachers_db_handler = get_list teacher_listing

  abbrev get_execs_db_handler : List String → Params → Call (Pool db) (List Exec)
  get_execs_db_handler = get_list exec_listing

  -- `GetStudentsDBHandler`; the total is that of the table, zero if it cannot be read.
  unfoldable pub get_students_db_handler :
      List String → Params → ℤ → ℤ → Call (Pool db) (List Student × ℤ)
  unfolding connect_read_db page_query scan_rows
  get_students_db_handler columns ps limit page = do
    connect_read db
    students ← read_list student_listing (page_query columns ps limit page)
    total ← gets (λ p. scan_count (db.read_row "SELECT COUNT(*) FROM students" [] p.server))
    pure (students, or_zero total)

  -- `GetStudentsByTeacherIdromDb`
  unfoldable pub get_students_by_teacher_id_from_db :
      String → Pool db → List String × Result (List Student)
  unfolding scan_rows
  get_students_by_teacher_id_from_db teacher_id p =
      if p.read_ready
      then students_read (db.query students_of_query (text teacher_id ∷ []) p.server)
      else ([], err connect_failed)

  -- `GetStudentCountByTeacherIdFromDb`
  unfoldable pub get_student_count_by_teacher_id_from_db : String → Call (Pool db) ℤ
  unfolding connect_read_db
  get_student_count_by_teacher_id_from_db teacher_id = do
    connect_read db
    n ← gets (λ p. scan_count (
        db.read_row
          "SELECT COUNT(*) FROM students WHERE class = (SELECT class FROM teachers WHERE id = ?)"
          (text teacher_id ∷ []) p.server))
    or_none n "Failed to retrieve student count"
