-- ===== src/Accounts.antt =====
-- The accounts of internal/repository/sqlconnect/execs_crud.go: the login's read, the change of a
-- password, and the tokens that reset one. The clock, the random bytes, Argon2 and SHA-256 are
-- parameters.
pub mod Laws
pub mod Reset
pub mod Prepare
pub mod Tokens
pub mod Memory
mod Tests
use student_system_go.Common.{
  ℕ, String, Bool, true, false, Option, none, some, List, [], ◌∷◌, if◌then◌else◌,
}
use student_system_go.Common.Int.{ℤ}
use student_system_go.Common.Text.{atoi}
use student_system_go.Go.{Result, ok, err, panic, ⊤, Call, pure, raise, gets, ◌>>=◌, ◌>>◌}
use student_system_go.Reflect.{Value, int, text, bool}
use student_system_go.Models.{Exec, zero_exec}
use student_system_go.Codes.{Bytes}
use student_system_go.Codes.Hex
use student_system_go.Passwords.{Argon2, verify_password, hash_password}
use student_system_go.Sql.{Sql, Row, row, Pool, Done, connect_db}
use student_system_go.Repo.{
  Found, found, absent, broken, scan_row, or_raise, or_message, or_none, exec, not_refused,
}

-- `time.Time`, with the two formats that the program writes.
pub record Clock : Type 1 where
  pub Time : Type 0
  pub add_minutes : ℤ → Time → Time
  pub date_time : Time → String
  pub rfc3339 : Time → String

-- What a call draws from the machine: the time, and 16 or 32 random bytes, if `rand.Read` succeeds.
pub record Draw (clock : Clock) : Type 0 where
  pub now : clock.Time
  pub salt : Option Bytes
  pub token : Option Bytes

abbrev pub select_user : String
select_user =
    "SELECT id, first_name, last_name, email, username, password,inactive_status,role FROM execs WHERE username = ?"

abbrev pub scan_user : List Value → Option Exec
scan_user (int i ∷ text f ∷ text l ∷ text m ∷ text u ∷ text p ∷ bool b ∷ text r ∷ []) =
    some (record zero_exec {
      id = i;
      first_name = f;
      last_name = l;
      email = m;
      username = u;
      password = p;
      inactive_status = b;
      role = r;
    })
scan_user _ = none

abbrev pub select_password : String
select_password = "SELECT username, password, role FROM execs WHERE id = ?"

-- The stored password; the name and the role are read and not used.
abbrev pub scan_password : List Value → Option String
scan_password (text u ∷ text p ∷ text r ∷ []) = some p
scan_password _ = none

abbrev pub update_password_query : String
update_password_query = "UPDATE execs SET password=?, password_changed_at=? WHERE id =?"

abbrev pub select_by_email : String
select_by_email = "SELECT id, username FROM execs WHERE email = ?"

abbrev pub scan_id_and_text : List Value → Option (ℤ × String)
scan_id_and_text (int i ∷ text u ∷ []) = some (i, u)
scan_id_and_text _ = none

abbrev pub store_code : String
store_code =
    "UPDATE execs SET password_reset_code = ?, password_reset_code_expires = ? WHERE id = ?"

abbrev pub select_by_code : String
select_by_code =
    "SELECT id,email FROM execs WHERE password_reset_code = ? AND password_reset_code_expires > ?"

abbrev pub reset_query : String
reset_query =
    "UPDATE execs SET password =?, password_reset_code=NULL, password_reset_code_expires=NULL, password_changed_at=? WHERE id =?"

-- `ResetTokenInfo`
pub record ResetTokenInfo (clock : Clock) : Type 0 where
  pub token : String
  pub username : String
  pub expires_at : clock.Time

abbrev pub prepare_failed : String
prepare_failed = "Failed to prepare password reset"

abbrev pub invalid_code : String
invalid_code = "Invalid or expired reset code"

module _ (db : Sql) where
  abbrev pub connect_or : String → Call (Pool db) ⊤
  connect_or message p = or_message (connect_db db p) message p

  -- `QueryRow(...).Scan(...)` on the primary
  abbrev pub select :
      {A : Type 0} → String → List Value → (List Value → Option A) → Pool db → Found A
  select q args scan p = scan_row scan (db.query_row q args p.server)

  -- `GetUserByUsername`
  unfoldable pub get_user_by_username : String → Call (Pool db) Exec
  unfolding connect_db
  get_user_by_username username = do
    connect_or "Database connection error"
    result ← gets (select select_user (text username ∷ []) scan_user)
    or_raise result "user not found" "Database query error"

  module _ (clock : Clock) (argon2 : Argon2) where
    -- `UpdatePasswordinDB`
    unfoldable pub update_password_in_db : Draw clock → ℤ → String → String → Call (Pool db) Bool
    unfolding connect_db verify_password hash_password
    update_password_in_db draw id current new = do
      connect_or "Database connection error"
      result ← gets (select select_password (int id ∷ []) scan_password)
      stored ← or_raise result "user not found" "user not found"
      or_message (verify_password argon2 current stored)
          "The pass word you enered does not match the current pass word on file"
      hash ← or_message (hash_password argon2 new draw.salt) "internal server error"
      d ← exec db update_password_query (text hash ∷ text (clock.date_time draw.now) ∷ int id ∷ [])
      not_refused db d (λ cause. "failed to update password")
      pure true

  module _ (clock : Clock) (sha256 : Bytes → Bytes) where
    -- The UPDATE of `PrepareResetToken`, and what it returns
    abbrev pub store_token : ℤ → String → clock.Time → Bytes → Call (Pool db) (ResetTokenInfo clock)
    unfolding Hex.encode
    store_token id username expires bytes = do
      d ←
          exec db store_code
            (text (Hex.encode (sha256 bytes)) ∷ text (clock.date_time expires) ∷ int id ∷ [])
      not_refused db d (λ cause. prepare_failed)
      pure (record { token = Hex.encode bytes; username = username; expires_at = expires })

    -- The rest of it, from the duration on
    abbrev pub prepare_drawn :
        clock.Time → ℤ → String → Option ℤ → Option Bytes → Call (Pool db) (ResetTokenInfo clock)
    unfolding Hex.encode
    prepare_drawn now id username minutes token = do
      duration ← or_none minutes prepare_failed
      bytes ← or_none token prepare_failed
      store_token id username (clock.add_minutes duration now) bytes

    -- The rest of it, from the row on
    abbrev pub prepare_found :
        Draw clock → String → Found (ℤ × String) → Call (Pool db) (ResetTokenInfo clock)
    unfolding atoi Hex.encode
    prepare_found draw minutes result = do
      (id, username) ← or_raise result "User not found" "User not found"
      prepare_drawn draw.now id username (atoi minutes) draw.token

    -- `PrepareResetToken`; `minutes` is the variable RESET_TOKEN_EXP_DURATION.
    unfoldable pub prepare_reset_token :
        Draw clock → String → String → Call (Pool db) (ResetTokenInfo clock)
    unfolding connect_db atoi Hex.encode
    prepare_reset_token draw minutes email = do
      connect_or "Internal error"
      result ← gets (select select_by_email (text email ∷ []) scan_id_and_text)
      prepare_found draw minutes result

    -- The error of `ConnectDb` is dropped: without a pool, `QueryRow` runs on a nil `*sql.DB` and panics.
    abbrev pub pool_or_panic : Call (Pool db) ⊤
    pool_or_panic p = if p.ready then (ok tt, p) else (panic, p)

    -- The UPDATE of `ResetPasswordDBHandler`
    abbrev pub store_password : Draw clock → String → ℤ → Call (Pool db) ⊤
    store_password draw hash id = do
      d ← exec db reset_query (text hash ∷ text (clock.rfc3339 draw.now) ∷ int id ∷ [])
      not_refused db d (λ cause. "Internal error")
      pure tt

    -- The rest of it, from the hash of the new password on
    abbrev pub store_hash : Draw clock → Result String → ℤ → Call (Pool db) ⊤
    store_hash draw hashed id = do
      hash ← or_message hashed "Internal error"
      store_password draw hash id

    -- The rest of it, from the row on
    abbrev pub reset_found : Argon2 → Draw clock → String → Found (ℤ × String) → Call (Pool db) ⊤
    unfolding hash_password
    reset_found argon2 draw new result = do
      (id, email) ← or_raise result invalid_code invalid_code
      store_hash draw (hash_password argon2 new draw.salt) id

    -- The rest of it, from the bytes of the token on
    abbrev pub reset_bytes : Argon2 → Draw clock → String → Bytes → Call (Pool db) ⊤
    unfolding hash_password Hex.encode
    reset_bytes argon2 draw new bytes = do
      pool_or_panic
      result ← gets (
          select select_by_code
            (text (Hex.encode (sha256 bytes)) ∷ text (clock.rfc3339 draw.now) ∷ [])
            scan_id_and_text)
      reset_found argon2 draw new result

    -- `ResetPasswordDBHandler`
    unfoldable pub reset_password_db_handler :
        Argon2 → Draw clock → String → String → Call (Pool db) ⊤
    unfolding Hex.encode Hex.decode hash_password
    reset_password_db_handler argon2 draw token new = do
      bytes ← or_none (Hex.decode token) "Internal error"
      reset_bytes argon2 draw new bytes
