-- ===== src/Sql/Memory.antt =====
-- A server that holds the students in memory and knows the statements of students_crud.go. It meets
-- the laws, so they can hold; the examples run on it.
use student_system_go.Common.{
  ℕ, ◌≡◌, refl, sym, ap, String, Bool, true, false, Option, none, some, List, [], ◌∷◌, arith, inl,
  inr, Option-cases, if◌then◌else◌,
}
use mathlib.Core.Option
use student_system_go.Common.Int.{ℤ}
use student_system_go.Common.Text.{same}
use student_system_go.Models.{Student}
use student_system_go.Reflect.{Value, int, text}
use student_system_go.Entity.Students.{student_entity, student_columns, scan_student}
use student_system_go.Sql.{Sql, Row, row, no_rows, failed, Done, done, refused}
use student_system_go.Sql.Laws.{View, write_at, delete_at, count_at, IsTable}

pub record Memory : Type 0 where
  pub rows : View Student
  pub tx : Option (View Student)
  -- `false` when the server refuses every statement
  pub up : Bool

abbrev selected_values : Option Student → Row
selected_values none = no_rows
selected_values (some s) =
    row (int s.id ∷ text s.first_name ∷ text s.last_name ∷ text s.email ∷ text s.class ∷ [])

-- A row is looked up by the id that it is stored under.
abbrev select_at : ℤ → View Student → Row
select_at id v = selected_values (Option.map (λ (s : Student). record s { id = id }) (v id))

abbrev select_args : List Value → Memory → Row
select_args (int id ∷ []) m = select_at id m.rows
select_args _ m = failed

abbrev answer : String → List Value → Memory → Row
answer q args m = if same q student_entity.select then select_args args m else failed

-- An UPDATE or DELETE on a view, with the number of rows.
abbrev Change : Type 0
Change = Option (ℕ × View Student)

abbrev update_view : List Value → View Student → Change
update_view (text f ∷ text l ∷ text e ∷ text c ∷ int id ∷ []) v = some (
  count_at id v,
  write_at id (λ (s : Student). record s { first_name = f; last_name = l; email = e; class = c }) v,
)
update_view _ v = none

abbrev delete_view : List Value → View Student → Change
delete_view (int id ∷ []) v = some (count_at id v, delete_at id v)
delete_view _ v = none

abbrev change : String → List Value → View Student → Change
change q args v =
    if same q student_entity.update
    then update_view args v
    else if same q student_entity.tx_update
    then update_view args v
    else if same q student_entity.delete
    then delete_view args v
    else none

abbrev on_rows : Change → Memory → Done × Memory
on_rows none m = (refused "syntax error", m)
on_rows (some (n, v)) m = (done (some n) none, record m { rows = v })

abbrev on_tx : Change → Memory → Done × Memory
on_tx none m = (refused "syntax error", m)
on_tx (some (n, v)) m = (done (some n) none, record m { tx = some v })

abbrev in_open_tx : String → List Value → Option (View Student) → Memory → Done × Memory
in_open_tx q args none m = (refused "transaction has already been committed or rolled back", m)
in_open_tx q args (some v) m = on_tx (change q args v) m

abbrev commit_view : Option (View Student) → Memory → Bool × Memory
commit_view none m = (false, m)
commit_view (some v) m = (true, record m { rows = v; tx = none })

abbrev pub memory : Sql
memory = record {
  S = Memory;
  query_row = answer;
  read_row = λ q args s. failed;
  query = λ q args m. none;
  prepare = λ q m. m.up;
  exec = λ q args m. if m.up then on_rows (change q args m.rows) m else (refused "gone away", m);
  begin = λ m. if m.up then (true, record m { tx = some m.rows }) else (false, m);
  tx_exec = λ q args m. if m.up then in_open_tx q args m.tx m else (refused "gone away", m);
  commit = λ m. commit_view m.tx m;
  rollback = λ m. record m { tx = none };
}

abbrev keyed : View Student → View Student
keyed v j = Option.map (λ (s : Student). record s { id = j }) (v j)

abbrev pending_rows : Option (View Student) → View Student → View Student
pending_rows none v = keyed v
pending_rows (some t) v = keyed t

abbrev has_tx : Option (View Student) → Bool
has_tx none = false
has_tx (some v) = true

abbrev scan_of : Row → Option Student
scan_of (row vs) = scan_student vs
scan_of _ = none

select_at-found :
    (id : ℤ) (v : View Student) (vs : List Value)
    → select_at id v ≡ row vs
    → (r : Student) × (keyed v id ≡ some r)
      × (r.id ≡ id)
      × (scan_student vs ≡ some (record r { photo_s3_key = "" }))
select_at-found id v vs h = elim (Option-cases (v id)) [
  | inl missing ↦ ground arith
  | inr (s, here) ↦ (record s { id = id }, rw here, refl, sym (ap scan_of (rw here at h)))
]

pub select_at-absent : (id : ℤ) (v : View Student) → select_at id v ≡ no_rows → keyed v id ≡ none
select_at-absent id v h = ground arith

keyed-write_at :
    (new : Student) (v : View Student) (j : ℤ)
    → keyed (write_at new.id (student_columns.written new) v) j
      ≡ write_at new.id (student_columns.written new) (keyed v) j
keyed-write_at new v j = ground arith

keyed-delete_at :
    (id : ℤ) (v : View Student) (j : ℤ) → keyed (delete_at id v) j ≡ delete_at id (keyed v) j
keyed-delete_at id v j = ground arith

count_at-keyed : (id : ℤ) (v : View Student) → count_at id v ≡ count_at id (keyed v)
count_at-keyed id v = ground arith

pub select-found :
    (id : ℤ) (m : Memory) (vs : List Value)
    → answer student_entity.select (int id ∷ []) m ≡ row vs
    → (r : Student) × (keyed m.rows id ≡ some r)
      × (r.id ≡ id)
      × (scan_student vs ≡ some (record r { photo_s3_key = "" }))
select-found id m vs h = select_at-found id m.rows vs h

unfoldable pub memory-IsTable : IsTable memory student_entity student_columns
memory-IsTable = record {
  row_at = λ m. keyed m.rows;
  pending = λ m. pending_rows m.tx m.rows;
  in_tx = λ m. has_tx m.tx;
  select_row = select-found;
  select_absent = λ id m h. select_at-absent id m.rows h;
  patch_select_row = select-found;
  exec_refused = λ q args m cause h j. ground arith;
  exec_update = λ new m n l h j. ground arith;
  exec_delete = λ id m n l h j. ground arith;
  exec_delete_count = λ id m n l h. ground arith;
  begin_rows = λ m j. ground arith;
  begin_pending = λ m h j. ground arith;
  begin_in_tx = λ m h. ground arith;
  tx_rows = λ q args m j. ground arith;
  tx_in_tx = λ q args m. ground arith;
  tx_update = λ new m n l h j. ground arith;
  tx_delete = λ id m n l h j. ground arith;
  tx_delete_count = λ id m n l h. ground arith;
  commit_done = λ m h j. ground arith;
  commit_in_tx = λ m. ground arith;
  rollback_rows = λ m j. refl;
  rollback_in_tx = λ m. refl;
}
