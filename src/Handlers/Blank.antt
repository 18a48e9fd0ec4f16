-- ===== src/Handlers/Blank.antt =====
-- `POST` on a table: no request adds a row. Each struct has the field PhotoS3Key, which is tagged
-- json:"-", so decoding leaves it empty, and `CheckBlankFields` refuses a struct with an empty text.
use student_system_go.Common.{
  ◌≡◌, ◌≢◌, refl, sym, ap, ◌∙◌, ◌⊎◌, inl, inr, ℕ, String, true, not, Option, none, some, List, [],
  ◌∷◌, All, Bool-cases,
}
use student_system_go.Common.Text.{same}
use student_system_go.Models.{Student, Teacher, Exec, student_fields, teacher_fields, exec_fields}
use student_system_go.Reflect.{Field, get_field_names, has_blank_field, is_blank}
use student_system_go.Reflect.Json.{Json}
use student_system_go.Reflect.Decode.{decode_structs, decode_objects}
use student_system_go.Reflect.Keeps.{IsKept, SetterKeeps, slot-KeptBy, decode_structs-keeps}
use student_system_go.Go.{Call}
use student_system_go.Sql.{Sql, Pool}
use student_system_go.Cache.{Redis}
use student_system_go.Entity.{Entity}
use student_system_go.Entity.Students.{student_entity}
use student_system_go.Entity.Teachers.{teacher_entity}
use student_system_go.Entity.Execs.{exec_entity}
use student_system_go.Http.{sent, World}
use student_system_go.Http.Sent.{with_role-sent, parsed-sent, require-sent}
use student_system_go.Handlers.{Request, Routes, decoded, invalid_body, all_allowed, any_blank, add}
use student_system_go.Handlers.Students.{student_routes}
use student_system_go.Handlers.Teachers.{teacher_routes}
use student_system_go.Handlers.Execs.{exec_routes}

some-inj : {A : Type 0} {a b : A} → some a ≡ some b → a ≡ b
some-inj h = cc

any_blank-cons :
    {R : Type 0} (fields : List (Field R)) (r : R) (rs : List R)
    → has_blank_field fields r ≡ true
    → any_blank fields (r ∷ rs) ≡ true
unfolding any_blank
any_blank-cons fields r rs h = rw h

-- The handler refuses every list that decodes to at least one struct.
abbrev NeverAdds :
    (db : Sql)
    → Redis
    → {R : Type 0} → Entity R
    → Routes
    → (List R → Call (Pool db) (List R))
    → Type 0
NeverAdds db redis {R} e routes insert =
    (r : Request) (row : R) (rows : List R) (w v : World db redis) (status : ℕ) (added : List R)
    → decoded (decode_structs e.fields e.zero_row) r.body ≡ some (row ∷ rows)
    → add db redis e routes insert r w ≢ (sent status added, v)

module _ (db : Sql) (redis : Redis) {R : Type 0} (e : Entity R) (routes : Routes)
    (insert : List R → Call (Pool db) (List R)) (P : R → Type 0) where
  body-keeps :
      (body : Option Json) (rs : List R)
      → All (IsKept P) e.fields
      → P e.zero_row
      → decoded (decode_structs e.fields e.zero_row) body ≡ some rs
      → All P rs
  body-keeps none rs kept zero_holds h = cc
  body-keeps (some j) rs kept zero_holds h =
      decode_structs-keeps P e.fields e.zero_row j rs kept h zero_holds

  add-NeverAdds :
      All (IsKept P) e.fields
      → P e.zero_row
      → ((r : R) → P r → has_blank_field e.fields r ≡ true)
      → NeverAdds db redis e routes insert
  unfolding add
  add-NeverAdds kept zero_holds blank r row rows w v status added decodes q =
      let (role, has, may, q1) = with_role-sent r.role routes.add_roles _ w q in
      let (raw, objects, q2) = parsed-sent (decoded decode_objects r.body) invalid_body _ w q1 in
      let (allowed, q3) =
        require-sent (all_allowed (get_field_names e.fields) raw)
          "Invalid field in request body, only use allowed fields" _ w q2 in
      let (rs, structs, q4) =
        parsed-sent (decoded (decode_structs e.fields e.zero_row) r.body) invalid_body _ w q3 in
      let (full, q5) =
        require-sent (not (any_blank e.fields rs)) "Missing required fields in request body" _ w
          q4 in
      let equal : rs ≡ row ∷ rows = some-inj (sym structs ∙ decodes) in
      let holds = body-keeps r.body (row ∷ rows) kept zero_holds decodes in
      let blanks = any_blank-cons e.fields row rows (blank row holds.0) in
      cc (full, ap (any_blank e.fields) equal, blanks)

abbrev SomeBlank : {R : Type 0} → List (Field R) → R → Type 0
SomeBlank [] r = ⊥
SomeBlank (f ∷ fs) r = (is_blank f.slot r ≡ true) ⊎ SomeBlank fs r

has_blank_field-SomeBlank :
    {R : Type 0} (fields : List (Field R)) (r : R)
    → SomeBlank fields r
    → has_blank_field fields r ≡ true
unfolding has_blank_field
has_blank_field-SomeBlank [] r h = absurd h
has_blank_field-SomeBlank (f ∷ fs) r (inl here) = rw here
has_blank_field-SomeBlank (f ∷ fs) r (inr later) = elim (Bool-cases (is_blank f.slot r)) [
  | inl here ↦ rw here
  | inr other ↦ rw other (has_blank_field-SomeBlank fs r later)
]

-- The photo of a struct is the empty text.
abbrev NoPhoto : {R : Type 0} → (R → String) → R → Type 0
NoPhoto photo r = same (photo r) "" ≡ true

student_blank :
    (s : Student) → NoPhoto (λ x. x.photo_s3_key) s → has_blank_field student_fields s ≡ true
student_blank s h = has_blank_field-SomeBlank student_fields s (inr (inr (inr (inr (inr (inl h))))))

teacher_blank :
    (s : Teacher) → NoPhoto (λ x. x.photo_s3_key) s → has_blank_field teacher_fields s ≡ true
teacher_blank s h =
    has_blank_field-SomeBlank teacher_fields s (inr (inr (inr (inr (inr (inr (inl h)))))))

exec_blank : (s : Exec) → NoPhoto (λ x. x.photo_s3_key) s → has_blank_field exec_fields s ≡ true
exec_blank s h =
    has_blank_field-SomeBlank exec_fields s
      (inr (inr (inr (inr (inr (inr (inr (inr (inr (inr (inr (inr (inl h)))))))))))))

abbrev Settles : {R : Type 0} → (R → Type 0) → Field R → Type 0
Settles P f = (same f.json "-" ≡ true) ⊎ SetterKeeps P f.slot

keeps :
    {R : Type 0} (P : R → Type 0) (fields : List (Field R))
    → All (Settles P) fields
    → All (IsKept P) fields
keeps P [] h = tt
keeps P (f ∷ fs) (inl hidden, h) = (inl hidden, keeps P fs h)
keeps P (f ∷ fs) (inr k, h) = (inr (slot-KeptBy P f.slot k), keeps P fs h)

-- The three tables.
pub data Table : Type 0 where
  students teachers execs : Table

abbrev pub RowOf : Table → Type 0
RowOf students = Student
RowOf teachers = Teacher
RowOf execs = Exec

abbrev pub entity_of : (t : Table) → Entity (RowOf t)
entity_of students = student_entity
entity_of teachers = teacher_entity
entity_of execs = exec_entity

abbrev pub routes_of : Table → Routes
routes_of students = student_routes
routes_of teachers = teacher_routes
routes_of execs = exec_routes

-- No request adds a student, a teacher or an exec: whoever sends it and whatever is in it, a list that
-- decodes to at least one struct is not answered with success, by any of the three handlers.
pub add-refused :
    (db : Sql) (redis : Redis) (t : Table)
    (insert : List (RowOf t) → Call (Pool db) (List (RowOf t))) (r : Request) (row : RowOf t)
    (rows : List (RowOf t)) (w v : World db redis) (status : ℕ) (added : List (RowOf t))
    → decoded (decode_structs (entity_of t).fields (entity_of t).zero_row) r.body
      ≡ some (row ∷ rows)
    → add db redis (entity_of t) (routes_of t) insert r w ≢ (sent status added, v)
add-refused db redis students insert =
    add-NeverAdds db redis student_entity student_routes insert (NoPhoto (λ x. x.photo_s3_key))
      (keeps (NoPhoto (λ x. x.photo_s3_key)) student_fields (
        inr (λ v r p. p),
        (
          inr (λ v r p. p),
          (inr (λ v r p. p), (inr (λ v r p. p), (inr (λ v r p. p), (inl refl, tt)))),
        ),
      ))
      refl student_blank
add-refused db redis teachers insert =
    add-NeverAdds db redis teacher_entity teacher_routes insert (NoPhoto (λ x. x.photo_s3_key))
      (keeps (NoPhoto (λ x. x.photo_s3_key)) teacher_fields (
        inr (λ v r p. p),
        (
          inr (λ v r p. p),
          (
            inr (λ v r p. p),
            (inr (λ v r p. p), (inr (λ v r p. p), (inr (λ v r p. p), (inl refl, tt)))),
          ),
        ),
      ))
      refl teacher_blank
add-refused db redis execs insert =
    add-NeverAdds db redis exec_entity exec_routes insert (NoPhoto (λ x. x.photo_s3_key))
      (keeps (NoPhoto (λ x. x.photo_s3_key)) exec_fields (
        inr (λ v r p. p),
        (
          inr (λ v r p. p),
          (
            inr (λ v r p. p),
            (
              inr (λ v r p. p),
              (
                inr (λ v r p. p),
                (
                  inr (λ v r p. p),
                  (
                    inr (λ v r p. p),
                    (
                      inr (λ v r p. p),
                      (
                        inr (λ v r p. p),
                        (inr (λ v r p. p), (inr (λ v r p. p), (inr (λ v r p. p), (inl refl, tt)))),
                      ),
                    ),
                  ),
                ),
              ),
            ),
          ),
        ),
      ))
      refl exec_blank
