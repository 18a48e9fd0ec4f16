-- ===== src/Repo/AddExecs/Tests.antt =====
-- A run that adds two execs.
use student_system_go.Common.{
  ◌≡◌, refl, false, true, none, some, List, [], ◌∷◌, ◌++◌, if◌then◌else◌,
}
use student_system_go.Common.Int.{pos}
use student_system_go.Common.Text.{same}
use student_system_go.Go.{ok, err}
use student_system_go.Reflect.{Value, generate_insert_query, get_struct_values}
use student_system_go.Models.{Exec, zero_exec}
use student_system_go.Codes.{Bytes}
use student_system_go.Passwords.{Argon2, hash_password}
use student_system_go.Sql.{Sql, Pool, no_rows, done, refused, connect_db}
use student_system_go.Repo.AddExecs.{insert_execs, insert_exec, add_execs_db_handler}
use student_system_go.Repo.AddExecs.Hashed.{AddEnds, add_execs_db_handler-AddEnds}

-- A server that keeps the arguments of each INSERT.
abbrev inserts : Sql
inserts = record {
  S = List (List Value);
  query_row = λ q args rows. no_rows;
  read_row = λ q args rows. no_rows;
  query = λ q args rows. none;
  prepare = λ q rows. true;
  exec = λ q args rows.
      if same q
        "INSERT INTO execs (first_name, last_name, email, username, password, password_changed_at, user_created_at, password_reset_code, password_reset_code_expires, inactive_status, role, photo_s3_key) VALUES (?, ?, ?, ?, ?, ?, ?, ?, ?, ?, ?, ?)"
      then (done (some 1) (some (pos 7)), rows ++ args ∷ [])
      else (refused "syntax error", rows);
  begin = λ rows. (false, rows);
  tx_exec = λ q args rows. (refused "no transaction", rows);
  commit = λ rows. (false, rows);
  rollback = λ rows. rows;
}

abbrev empty_pool : Pool inserts
empty_pool = record { ready = true; read_ready = true; server = [] }

abbrev weak : Argon2
weak password salt = 1 ∷ 2 ∷ 3 ∷ []

abbrev salt : Bytes
salt = 0 ∷ 0 ∷ 0 ∷ []

abbrev ann : Exec
ann = record zero_exec { first_name = "Ann"; password = "secret"; role = "admin" }

add_execs_tests :
    ((add_execs_db_handler inserts weak (λ i. some salt) (ann ∷ []) empty_pool).0
      ≡ ok (record ann { password = "AAAA.AQID"; id = pos 7 } ∷ []))
    × ((add_execs_db_handler inserts weak (λ i. some salt) (ann ∷ zero_exec ∷ []) empty_pool).0
        ≡ err "error adding exec into db")
    × ((add_execs_db_handler inserts weak (λ i. none) (ann ∷ []) empty_pool).0
        ≡ err "error adding exec into db")
unfolding add_execs_db_handler insert_execs insert_exec hash_password connect_db
    generate_insert_query get_struct_values
add_execs_tests = (refl, refl, refl)

add_execs_db_handler-AddEnds_example :
    AddEnds inserts weak
      (λ i. some salt)
      0
      (ann ∷ [])
      empty_pool
      (add_execs_db_handler inserts weak (λ i. some salt) (ann ∷ []) empty_pool)
add_execs_db_handler-AddEnds_example =
    add_execs_db_handler-AddEnds inserts weak (λ i. some salt) (ann ∷ []) empty_pool
