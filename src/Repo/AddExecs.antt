-- ===== src/Repo/AddExecs.antt =====
-- `AddExecsDBHandler` of internal/repository/sqlconnect/execs_crud.go: the passwords are hashed on the
-- way into the table.
pub mod Hashed
mod Tests
use student_system_go.Common.{ℕ, suc, String, Option, none, some, List, [], ◌∷◌}
use student_system_go.Common.Int.{ℤ}
use student_system_go.Go.{Result, ok, err, panic, Call, pure, ◌>>=◌, ◌>>◌}
use student_system_go.Reflect.{Value, generate_insert_query, get_struct_values}
use student_system_go.Models.{Exec, exec_fields}
use student_system_go.Entity.Execs.{exec_entity}
use student_system_go.Codes.{Bytes}
use student_system_go.Passwords.{Argon2, hash_password}
use student_system_go.Sql.{Sql, Pool, Done, connect_db}
use student_system_go.Repo.{connect, exec, not_refused, or_message, or_none, prepare}

-- `salt_at i` is what `rand.Read` draws for the `i`-th exec.
module _ (db : Sql) (argon2 : Argon2) (salt_at : ℕ → Option Bytes) where
  -- An exec whose password is hashed: the INSERT, and the exec that is returned.
  abbrev pub insert_hashed : Exec → Call (Pool db) Exec
  unfolding generate_insert_query get_struct_values
  insert_hashed e = do
    d ← exec db (generate_insert_query "execs" exec_fields) (get_struct_values exec_fields e)
    (n, l) ← not_refused db d (λ cause. "Failed to insert exec")
    id ← or_none l "Failed to retrieve last insert id"
    pure (record e { id = id })

  -- One round of the loop, given the result of the hashing
  unfoldable pub insert_exec : Exec → Result String → Call (Pool db) Exec
  unfolding generate_insert_query get_struct_values
  insert_exec e hashed = do
    hash ← or_message hashed "error adding exec into db"
    insert_hashed (record e { password = hash })

  unfoldable pub insert_execs : ℕ → List Exec → Call (Pool db) (List Exec)
  unfolding insert_exec hash_password
  insert_execs i [] = pure []
  insert_execs i (e ∷ es) = do
    a ← insert_exec e (hash_password argon2 e.password (salt_at i))
    added ← insert_execs (suc i) es
    pure (a ∷ added)

  -- `AddExecsDBHandler`
  unfoldable pub add_execs_db_handler : List Exec → Call (Pool db) (List Exec)
  unfolding connect_db insert_execs generate_insert_query
  add_execs_db_handler execs = do
    connect db
    prepare db exec_entity (generate_insert_query "execs" exec_fields) "Failed to prepare statement"
    insert_execs 0 execs
