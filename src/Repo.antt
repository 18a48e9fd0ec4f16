-- ===== src/Repo.antt =====
-- internal/repository/sqlconnect: the operations on one table, written once for the three copies.
-- `Students`, `Teachers` and `Execs` below are the copies; the proofs are in the other children.
pub mod Batch
pub mod Single
pub mod Photo
pub mod Lists
pub mod AddExecs
pub mod ExecPatch
mod Tests
pub mod Students
pub mod Teachers
pub mod Execs
use student_system_go.Common.{
  ℕ, String, Bool, true, false, Option, none, some, List, [], ◌∷◌, ◌++◌, ◌==◌, if◌then◌else◌,
}
use student_system_go.Common.Int.{ℤ}
use student_system_go.Go.{Result, ok, err, panic, ⊤, Call, pure, raise, gets, ◌>>=◌, ◌>>◌}
use student_system_go.Reflect.{
  Value, null, int, text, Field, generate_insert_query, get_struct_values,
}
use student_system_go.Reflect.Json.{Update}
use student_system_go.Reflect.Patch.{Patched, patched, mismatch, panicked, patch_unchecked}
use student_system_go.Sql.{
  Sql, Row, row, no_rows, failed, Done, done, refused, Pool, connect_db, connect_read_db,
}
use student_system_go.Entity.{Entity}

abbrev pub connect_failed : String
connect_failed = "Failed to connect to database"

-- A row that was selected and scanned; `absent` is `sql.ErrNoRows`, `broken` any other error.
pub data Found (R : Type 0) : Type 0 where
  found : R → Found R
  absent broken : Found R

module _ {R : Type 0} where
  abbrev scanned : Option R → Found R
  scanned none = broken
  scanned (some r) = found r

  abbrev pub scan_row : (List Value → Option R) → Row → Found R
  scan_row scan (row vs) = scanned (scan vs)
  scan_row scan no_rows = absent
  scan_row scan failed = broken

  abbrev pub or_raise : {S : Type 0} → Found R → String → String → Call S R
  or_raise (found r) missing broke = pure r
  or_raise absent missing broke = raise missing
  or_raise broken missing broke = raise broke

  abbrev pub or_panic : {S : Type 0} → Patched R → Call S R
  or_panic (patched r) s = (ok r, s)
  or_panic mismatch s = (panic, s)
  or_panic panicked s = (panic, s)

-- `if err != nil { return utils.ErrorHandler(err, message) }`
abbrev pub or_message {ℓ} : {S A : Type ℓ} → Result A → String → Call S A
or_message (ok a) message s = (ok a, s)
or_message (err cause) message s = (err message, s)
or_message panic message s = (panic, s)

abbrev pub or_none {ℓ} : {S A : Type ℓ} → Option A → String → Call S A
or_none (some a) message s = (ok a, s)
or_none none message s = (err message, s)

module _ (db : Sql) where
  abbrev pub connect : Call (Pool db) ⊤
  connect p = or_message (connect_db db p) connect_failed p

  abbrev pub connect_read : Call (Pool db) ⊤
  connect_read p = or_message (connect_read_db db p) connect_failed p

  -- `db.Exec`; its own error is `refused`.
  abbrev pub exec : String → List Value → Call (Pool db) Done
  exec q args p = let (d, s) = db.exec q args p.server in (ok d, record p { server = s })

  abbrev pub not_refused : Done → (String → String) → Call (Pool db) (Option ℕ × Option ℤ)
  not_refused (done n l) message p = (ok (n, l), p)
  not_refused (refused cause) message p = (err (message cause), p)

module _ (db : Sql) {R : Type 0} (e : Entity R) where
  abbrev pub find : String → (List Value → Option R) → ℤ → Pool db → Found R
  find q scan id p = scan_row scan (db.query_row q (int id ∷ []) p.server)

  abbrev find_read : String → (List Value → Option R) → ℤ → Pool db → Found R
  find_read q scan id p = scan_row scan (db.read_row q (int id ∷ []) p.server)

  -- `GetStudentByID`, on the replica
  unfoldable pub get_by_id : ℤ → Call (Pool db) R
  unfolding connect_read_db
  get_by_id id = do
    connect_read db
    r ← gets (find_read e.select e.scan id)
    or_raise r e.messages.not_found e.messages.query_failed

  -- The loop of `AddStudentsDBHandler`: each row is inserted as it comes.
  unfoldable pub insert_rows : List R → Call (Pool db) (List R)
  unfolding generate_insert_query get_struct_values
  insert_rows [] = pure []
  insert_rows (r ∷ rs) = do
    d ← exec db (generate_insert_query e.table e.fields) (get_struct_values e.fields r)
    (n, l) ← not_refused db d e.messages.insert_failed
    id ← or_none l "Failed to retrieve last insert id"
    added ← insert_rows rs
    pure (e.with_id id r ∷ added)

  abbrev pub prepare : String → String → Call (Pool db) ⊤
  prepare q message p = if db.prepare q p.server then (ok tt, p) else (err message, p)

  -- `AddStudentsDBHandler`
  unfoldable pub add_rows : List R → Call (Pool db) (List R)
  unfolding insert_rows connect_db generate_insert_query
  add_rows rs = do
    connect db
    prepare (generate_insert_query e.table e.fields) "Failed to prepare statement"
    insert_rows rs

  -- The UPDATE of `new`, which is then returned.
  abbrev pub write_row : R → Call (Pool db) R
  write_row new = do
    d ← exec db e.update (e.update_args new)
    not_refused db d (λ cause. e.messages.update_failed)
    pure new

  -- `UpdateStudent`
  unfoldable pub update_row : ℤ → R → Call (Pool db) R
  unfolding connect_db
  update_row id r = do
    connect db
    result ← gets (find e.select e.scan id)
    old ← or_raise result e.messages.not_found e.messages.retrieve_failed
    write_row (e.with_id (e.id old) r)

  -- `PatchOneStudent`
  unfoldable pub patch_row : ℤ → Update → Call (Pool db) R
  unfolding connect_db patch_unchecked
  patch_row id updates = do
    connect db
    result ← gets (find e.patch_select e.patch_scan id)
    old ← or_raise result e.messages.not_found e.messages.retrieve_failed
    new ← or_panic (patch_unchecked e.fields updates old)
    write_row new

  -- `DeleteOneStudent`
  unfoldable pub delete_row : ℤ → Call (Pool db) ⊤
  unfolding connect_db
  delete_row id = do
    connect db
    d ← exec db e.delete (int id ∷ [])
    (n, l) ← not_refused db d (λ cause. e.messages.delete_failed)
    rows_affected ← or_none n "Failed to retrieve affected rows"
    if rows_affected == 0 then raise e.messages.not_found else pure tt
