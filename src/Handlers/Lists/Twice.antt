-- ===== src/Handlers/Lists/Twice.antt =====
-- The answers for the students of a teacher.
use student_system_go.Common.{
  ◌≡◌, refl, sym, ap, ◌∙◌, ◌⊎◌, inl, inr, String, Bool, true, false, Option, none, some, List, [],
  ◌∷◌, if◌then◌else◌, Bool-cases,
}
use mathlib.Core.Path.{subst}
use student_system_go.Common.Text.{◌<>◌}
use student_system_go.Go.{Result, ok, err, panic}
use student_system_go.Reflect.{Value, text}
use student_system_go.Models.{Student}
use student_system_go.Entity.Students.{scan_student}
use student_system_go.Sql.{Sql, Pool}
use student_system_go.Cache.{Redis}
use student_system_go.Repo.{connect_failed}
use student_system_go.Repo.Lists.{
  scan_rows, students_of_query, students_scanned, students_read, get_students_by_teacher_id_from_db,
}
use student_system_go.Repo.Lists.Complete.{Scans, scan_rows-Scans}
use student_system_go.Http.{Reply, failed, sent, closed, World, Handler, authorize_user, with_role}
use student_system_go.Http.Sent.{with_role-may, with_role-may_not}
use student_system_go.Handlers.{Request}
use student_system_go.Handlers.Access.{IsListed, authorize_user_iff}
use student_system_go.Handlers.Lists.{written_after, students_reply, get_students_by_teacher_id}

module _ (db : Sql) where
  abbrev pub query_rows : String → Pool db → Option (List (List Value) × Bool)
  query_rows id p = db.query students_of_query (text id ∷ []) p.server

  -- A message of `GetStudentsByTeacherIdromDb` other than that of the connection.
  abbrev pub IsReadError : String → Type 0
  IsReadError m =
      (m ≡ "Failed to retrieve students for the teacher")
      ⊎ (m ≡ "Failed to scan student data")
      ⊎ (m ≡ "Error occurred while retrieving students")

  -- The end of `GetStudentsByTeacherIdromDb`
  abbrev ReadEnds : String → Pool db → List String × Result (List Student) → Type 0
  ReadEnds id p (written, ok students) =
      (p.read_ready ≡ true)
      × ((rows : List (List Value)) × ((query_rows id p ≡ some (rows, true))
            × Scans scan_student rows students))
  ReadEnds id p (written, err m) =
      ((p.read_ready ≡ false) × (written ≡ []) × (m ≡ connect_failed))
      ⊎ ((p.read_ready ≡ true) × (written ≡ m ∷ []) × IsReadError m)
  ReadEnds id p (written, panic) = ⊥

  students_read-ReadEnds :
      (id : String) (p : Pool db) (o : Option (List (List Value) × Bool))
      → p.read_ready ≡ true
      → query_rows id p ≡ o
      → ReadEnds id p (students_read o)
  unfolding scan_rows
  students_read-ReadEnds id p none ready answer = inr (ready, refl, inl refl)
  students_read-ReadEnds id p (some (rows, complete)) ready answer =
      go (scan_rows scan_student rows) complete refl answer
    where
      go :
          (o : Option (List Student)) (b : Bool)
          → scan_rows scan_student rows ≡ o
          → query_rows id p ≡ some (rows, b)
          → ReadEnds id p (students_scanned b o)
      go none b scans answered = inr (ready, refl, inr (inl refl))
      go (some students) true scans answered =
          (ready, (rows, (answered, scan_rows-Scans scan_student rows students scans)))
      go (some students) false scans answered = inr (ready, refl, inr (inr refl))

  from_db-ReadEnds :
      (id : String) (p : Pool db) → ReadEnds id p (get_students_by_teacher_id_from_db db id p)
  unfolding get_students_by_teacher_id_from_db
  from_db-ReadEnds id p = go p.read_ready refl
    where
      go :
          (b : Bool)
          → p.read_ready ≡ b
          → ReadEnds id p (if b then students_read (query_rows id p) else ([], err connect_failed))
      go true ready = students_read-ReadEnds id p (query_rows id p) ready refl
      go false unready = inl (unready, refl, refl)

  -- What `GetStudentsByTeacherId` answers to a role that may ask.
  abbrev pub Answers :
      {redis : Redis} → String → World db redis → Reply (List Student) × World db redis → Type 0
  Answers id w (sent status students, v) =
      (status ≡ 200)
      × (v ≡ w)
      × ((rows : List (List Value)) × ((query_rows id w.pool ≡ some (rows, true))
            × Scans scan_student rows students))
  Answers id w (failed status body, v) =
      (status ≡ 500)
      × (v ≡ w)
      × (((w.pool.read_ready ≡ false) × (body ≡ connect_failed))
          ⊎ ((w.pool.read_ready ≡ true)
              × ((m : String) × (IsReadError m × (body ≡ m <> "\n" <> m)))))
  Answers id w (closed, v) = ⊥

  reply-Answers :
      {redis : Redis} (id : String) (w : World db redis) (x : List String × Result (List Student))
      → ReadEnds id w.pool x
      → Answers id w (students_reply db redis x w)
  reply-Answers id w (written, ok students) (ready, h) = (refl, refl, h)
  reply-Answers id w (written, err m) (inl (unready, none_written, is_connect)) =
      (refl, refl, inl (unready, ap (λ ws. written_after ws m) none_written ∙ is_connect))
  reply-Answers id w (written, err m) (inr (ready, one_written, is_read)) =
      (refl, refl, inr (ready, (m, (is_read, ap (λ ws. written_after ws m) one_written))))
  reply-Answers id w (written, panic) h = h

  abbrev pub readers : List String
  readers = "admin" ∷ "manager" ∷ "exec" ∷ "teacher" ∷ []

  -- What `GetStudentsByTeacherId` answers to a request whose context has this role, or none.
  abbrev pub AnswersRole :
      {redis : Redis}
      → Option String
      → String
      → World db redis
      → Reply (List Student) × World db redis
      → Type 0
  AnswersRole none id w x = x ≡ (failed 401 "missing role in context", w)
  AnswersRole (some role) id w x =
      ((x ≡ (failed 403 "user not authorised", w)) × ¬ IsListed role readers)
      ⊎ (IsListed role readers × Answers id w x)

  -- The students of a teacher are answered to the four roles that may ask, with 403 to another role,
  -- and with 401 to a request without a role. A list that is answered is complete: the query came to
  -- its end, and every row of it is in the list, in order. An error is answered with 500; if it is one
  -- of the query, its message is in the body twice. The world is as it was in every case.
  pub get_students_by_teacher_id-Answers :
      {redis : Redis} (r : Request) (w : World db redis)
      → AnswersRole r.role r.id w (get_students_by_teacher_id db redis r w)
  unfolding get_students_by_teacher_id with_role
  get_students_by_teacher_id-Answers {redis} r w = go r.role
    where
      reply_from : Handler (World db redis) (List Student)
      reply_from v = students_reply db redis (get_students_by_teacher_id_from_db db r.id v.pool) v

      go : (o : Option String) → AnswersRole o r.id w (with_role o readers reply_from w)
      go none = refl
      go (some role) = elim (Bool-cases (authorize_user role readers)) [
        | inl may ↦ inr (
          (authorize_user_iff role readers).0 may,
          subst (Answers r.id w) (sym (with_role-may readers reply_from role w may)) (
              reply-Answers r.id w (get_students_by_teacher_id_from_db db r.id w.pool)
                (from_db-ReadEnds r.id w.pool)),
        )
        | inr may_not ↦ inl (
          with_role-may_not readers reply_from role w may_not,
          λ listed. cc (may_not, (authorize_user_iff role readers).1 listed),
        )
      ]
