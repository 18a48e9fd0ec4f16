-- ===== src/Handlers/Lists.antt =====
-- The list handlers of internal/api/handlers, and those for the students of a teacher.
pub mod Twice
mod Tests
use student_system_go.Common.{ℕ, String, List, [], ◌∷◌, none, some, true, false, if◌then◌else◌}
use student_system_go.Common.Int.{ℤ}
use student_system_go.Common.Text.{◌<>◌}
use student_system_go.Go.{Result, ok, err, panic}
use student_system_go.Models.{Student, Teacher, Exec}
use student_system_go.Sql.{Sql, Pool, connect_read_db}
use student_system_go.Cache.{Redis, Codec, get_or_fetch}
use student_system_go.Query.{Params, get_pagination_params}
use student_system_go.Entity.Students.{student_entity}
use student_system_go.Entity.Teachers.{teacher_entity}
use student_system_go.Entity.Execs.{exec_entity}
use student_system_go.Repo.Lists.{
  teacher_listing, exec_listing, get_list, get_students_db_handler,
  get_students_by_teacher_id_from_db, get_student_count_by_teacher_id_from_db,
}
use student_system_go.Http.{Reply, failed, sent, closed, World, Handler, with_role, sends, call}
use student_system_go.Handlers.{Request, get_all}
use student_system_go.Handlers.Students.{student_routes}
use student_system_go.Handlers.Teachers.{teacher_routes}
use student_system_go.Handlers.Execs.{exec_routes}

-- `cachedStudents`
pub record CachedStudents : Type 0 where
  pub students : List Student
  pub total : ℤ

-- What `GetStudentsHandler` encodes.
pub record StudentPage : Type 0 where
  pub count : ℤ
  pub page : ℤ
  pub page_size : ℤ
  pub students : List Student

abbrev pub with_body : {W A B : Type 0} → (A → B) → Reply A × W → Reply B × W
with_body f (sent status a, w) = (sent status (f a), w)
with_body f (failed status message, w) = (failed status message, w)
with_body f (closed, w) = (closed, w)

abbrev pub cached_students : Result (List Student × ℤ) → Result CachedStudents
cached_students (ok (students, total)) = ok (record { students = students; total = total })
cached_students (err message) = err message
cached_students panic = panic

abbrev pub page_of : ℤ × ℤ → CachedStudents → StudentPage
page_of (page, limit) c = record {
  count = c.total;
  page = page;
  page_size = limit;
  students = c.students;
}

-- The texts that are written to a response, each by `http.Error`, which ends it with a newline; the last
-- newline is left out.
abbrev pub written_after : List String → String → String
written_after [] message = message
written_after (m ∷ ms) message = m <> "\n" <> written_after ms message

-- `parse_query` is `URL.Query` of the raw query, and `columns` the order in which `AddFilters` meets
-- the columns of its map.
module _ (db : Sql) (redis : Redis) (parse_query : String → Params) where
  -- `GetStudentsHandler`
  unfoldable pub get_students_handler :
      List String → Codec CachedStudents → Request → Handler (World db redis) StudentPage
  unfolding get_all get_pagination_params get_students_db_handler
  get_students_handler columns codec r w =
      let (page, limit) = get_pagination_params (parse_query r.raw_query) in
      let load = λ (p : Pool db).
        cached_students
          (get_students_db_handler db columns (parse_query r.raw_query) limit page p).0 in
      with_body (page_of (page, limit))
        (get_all db redis student_entity student_routes codec load r w)

  -- `GetTeachersHandler`
  unfoldable pub get_teachers_handler :
      List String → Codec (List Teacher) → Request → Handler (World db redis) (List Teacher)
  unfolding get_all get_list
  get_teachers_handler columns codec r =
      get_all db redis teacher_entity teacher_routes codec
        (λ p. (get_list db teacher_listing columns (parse_query r.raw_query) p).0) r

  -- `GetExecsHandler`
  unfoldable pub get_execs_handler :
      List String → Codec (List Exec) → Request → Handler (World db redis) (List Exec)
  unfolding get_all get_list
  get_execs_handler columns codec r =
      get_all db redis exec_entity exec_routes codec
        (λ p. (get_list db exec_listing columns (parse_query r.raw_query) p).0) r

module _ (db : Sql) (redis : Redis) where
  abbrev pub students_reply :
      List String × Result (List Student) → Handler (World db redis) (List Student)
  students_reply (written, ok students) w = (sent 200 students, w)
  students_reply (written, err message) w = (failed 500 (written_after written message), w)
  students_reply (written, panic) w = (closed, w)

  -- `GetStudentsByTeacherId`; the repository has the response in hand and writes to it too.
  unfoldable pub get_students_by_teacher_id : Request → Handler (World db redis) (List Student)
  unfolding with_role get_students_by_teacher_id_from_db
  get_students_by_teacher_id r =
      with_role r.role ("admin" ∷ "manager" ∷ "exec" ∷ "teacher" ∷ [])
        λ w. students_reply (get_students_by_teacher_id_from_db db r.id w.pool) w

  -- `GetStudentCountByTeacherId`
  unfoldable pub get_student_count_by_teacher_id : Request → Handler (World db redis) ℤ
  unfolding with_role get_student_count_by_teacher_id_from_db
  get_student_count_by_teacher_id r =
      with_role r.role ("admin" ∷ "manager" ∷ "exec" ∷ [])
        (call (get_student_count_by_teacher_id_from_db db r.id) (sends 200))
