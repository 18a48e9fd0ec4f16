-- ===== src/Login.antt =====
-- The handlers of the accounts in internal/api/handlers/execs.go: login, logout, the change of a password, and the request and use of a reset token. golang-jwt, the
-- clock and the environment are parameters.
pub mod Admits
pub mod Session
pub mod Forgot
mod Tests
use student_system_go.Common.{
  ℕ, String, Bool, true, false, not, ◌||◌, Option, none, some, List, [], ◌∷◌, if◌then◌else◌,
}
use student_system_go.Common.Int.{ℤ}
use student_system_go.Common.Text.{same, ◌<>◌, atoi}
use student_system_go.Go.{Result, ok, err, panic, ⊤}
use student_system_go.Reflect.{Field, string_slot}
use student_system_go.Reflect.Json.{Json}
use student_system_go.Reflect.Decode.{decode_struct}
use student_system_go.Models.{Exec, zero_exec, exec_fields}
use student_system_go.Codes.{Bytes}
use student_system_go.Passwords.{Argon2, verify_password}
use student_system_go.Sql.{Sql, Pool}
use student_system_go.Auth.{Parsed}
use student_system_go.SignToken.{Jwt, JwtEnv, sign_token}
use student_system_go.Http.{
  Reply, failed, sent, closed, Handler, sends, fails, parsed, require, path_id,
}
use student_system_go.Queue.{
  Channel, PasswordResetMessage, message_json, password_reset_queue, publish_json,
}
use student_system_go.Accounts.{
  Clock, Draw, ResetTokenInfo, get_user_by_username, update_password_in_db, prepare_reset_token,
  reset_password_db_handler,
}

-- The cookie "Bearer" and the body of a login's answer
pub record LoggedIn : Type 0 where
  pub bearer : String
  pub token : String

-- `if err != nil { http.Error(w, …, status); return }`
abbrev pub on_error :
    {W A B : Type 0} → Result B × W → ℕ → (String → String) → (B → Handler W A) → Reply A × W
on_error (ok b, w) status message h = h b w
on_error (err cause, w) status message h = (failed status (message cause), w)
on_error (panic, w) status message h = (closed, w)

abbrev pub body_of : {R : Type 0} → List (Field R) → R → Option Json → Option R
unfolding decode_struct
body_of fields zero_value none = none
body_of fields zero_value (some j) = decode_struct fields zero_value j

-- `models.UpdatePassword`
pub record UpdatePassword : Type 0 where
  pub current_password : String
  pub new_password : String

abbrev pub update_password_fields : List (Field UpdatePassword)
update_password_fields =
    record {
      json = "current_password,omitempty";
      db = "";
      slot = string_slot (λ u. u.current_password) (λ v u. record u { current_password = v });
    }
    ∷ record {
      json = "new_password,omitempty";
      db = "";
      slot = string_slot (λ u. u.new_password) (λ v u. record u { new_password = v });
    }
    ∷ []

-- The body of a reset: the struct `request`
pub record ResetRequest : Type 0 where
  pub new_password : String
  pub confirm_password : String

abbrev pub reset_fields : List (Field ResetRequest)
reset_fields =
    record {
      json = "new_password";
      db = "";
      slot = string_slot (λ u. u.new_password) (λ v u. record u { new_password = v });
    }
    ∷ record {
      json = "confirm_password";
      db = "";
      slot = string_slot (λ u. u.confirm_password) (λ v u. record u { confirm_password = v });
    }
    ∷ []

abbrev pub email_fields : List (Field String)
email_fields = record { json = "email"; db = ""; slot = string_slot (λ s. s) (λ v s. v) } ∷ []

-- `LogOutHandler`: the cookie is emptied.
abbrev pub log_out_handler : {W : Type 0} → Handler W LoggedIn
log_out_handler = sends 200 (record { bearer = ""; token = "" })

module _ (db : Sql) (argon2 : Argon2) where
  module _ (jwt : Jwt) (env : JwtEnv) where
    abbrev pub token_sent : Result String → Handler (Pool db) LoggedIn
    token_sent (ok token) w =
        if same token ""
        then (failed 500 "failed to generate token", w)
        else (sent 200 (record { bearer = token; token = token }), w)
    token_sent (err cause) w = (failed 500 "failed to generate token", w)
    token_sent panic w = (closed, w)

    abbrev pub password_checked : Exec → Result ⊤ → Handler (Pool db) LoggedIn
    unfolding sign_token
    password_checked user (ok u) w =
        token_sent (sign_token jwt env user.id user.username user.role) w
    password_checked user (err cause) w = (failed 401 cause, w)
    password_checked user panic w = (closed, w)

    abbrev pub user_found : String → Exec → Handler (Pool db) LoggedIn
    unfolding sign_token verify_password
    user_found password user w =
        if user.inactive_status
        then (failed 403 "user is inactive", w)
        else password_checked user (verify_password argon2 password user.password) w

    abbrev pub credentials : Exec → Handler (Pool db) LoggedIn
    unfolding sign_token verify_password get_user_by_username
    credentials req w =
        on_error (get_user_by_username db req.username w) 400
          (λ cause. "Username and password are invalid") (user_found req.password)

    -- `LoginHandler`
    unfoldable pub login_handler : Option Json → Handler (Pool db) LoggedIn
    unfolding sign_token verify_password get_user_by_username decode_struct
    login_handler body = parsed (body_of exec_fields zero_exec body) "Invalid request body" λ req.
        require (not (same req.username "" || same req.password ""))
          "Username and password are required" (credentials req)

  module _ (clock : Clock) (draw : Draw clock) where
    -- `UpdatePasswordHandler`; the context's role and user are not read.
    unfoldable pub update_password_handler : String → Option Json → Handler (Pool db) String
    unfolding atoi decode_struct update_password_in_db
    update_password_handler id_text body = path_id id_text "Invalid exec ID" λ id.
        parsed
          (body_of update_password_fields (record { current_password = ""; new_password = "" })
            body)
          "Invalid request body"
          λ req.
            require (not (same req.current_password "" || same req.new_password ""))
              "Please enter a password"
              λ w.
                on_error
                  (update_password_in_db db clock argon2 draw id req.current_password
                    req.new_password w)
                  400 (λ cause. cause) λ done. sends 200 "password updpated successfully"

    -- `ResetPasswordHandler`
    unfoldable pub reset_password_handler :
        (Bytes → Bytes) → String → Option Json → Handler (Pool db) String
    unfolding decode_struct reset_password_db_handler
    reset_password_handler sha256 token body =
        parsed (body_of reset_fields (record { new_password = ""; confirm_password = "" }) body)
          "Invalid values in request"
          λ req. require (same req.new_password req.confirm_password) "Password should match" λ w.
            on_error
              (reset_password_db_handler db clock sha256 argon2 draw token req.new_password w) 400
              (λ cause. cause) λ done. sends 200 "Password reset successfully"

-- What the request of a token works on.
pub record ForgotWorld (db : Sql) (channel : Channel) : Type 0 where
  pub pool : Pool db
  pub broker : channel.S

-- `getEnv`
abbrev pub get_env : Option String → String → String
get_env none fallback = fallback
get_env (some v) fallback = if same v "" then fallback else v

module _ (db : Sql) (channel : Channel) (clock : Clock) (sha256 : Bytes → Bytes) (draw : Draw clock)
    (minutes : String) (base_url : Option String) where
  abbrev pub message_for : String → ResetTokenInfo clock → PasswordResetMessage
  message_for email info = record {
    to = email;
    username = info.username;
    reset_token = info.token;
    reset_url =
        get_env base_url "http://localhost:3000" <> "/execs/resetpassword/reset/" <> info.token;
    expires_at = clock.rfc3339 info.expires_at;
  }

  abbrev pub enqueued :
      String → Pool db → Result ⊤ × channel.S → Reply String × ForgotWorld db channel
  enqueued email pool (ok u, s) = (
    sent 202 ("Password reset link is being sent to " <> email),
    record { pool = pool; broker = s },
  )
  enqueued email pool (err cause, s) = (
    failed 503 "Email service temporarily unavailable, please retry",
    record { pool = pool; broker = s },
  )
  enqueued email pool (panic, s) = (closed, record { pool = pool; broker = s })

  abbrev pub token_prepared :
      String
      → channel.S
      → Result (ResetTokenInfo clock) × Pool db
      → Reply String × ForgotWorld db channel
  unfolding publish_json
  token_prepared email s (ok info, pool) =
      enqueued email pool
        (publish_json channel password_reset_queue (message_json (message_for email info)) s)
  token_prepared email s (err cause, pool) = (failed 400 cause, record { pool = pool; broker = s })
  token_prepared email s (panic, pool) = (closed, record { pool = pool; broker = s })

  -- `ForgotPasswordHandler`
  unfoldable pub forgot_password_handler : Option Json → Handler (ForgotWorld db channel) String
  unfolding decode_struct prepare_reset_token publish_json
  forgot_password_handler body =
      parsed (body_of email_fields "" body) "Invalid request body" λ email w.
        token_prepared email w.broker
          (prepare_reset_token db clock sha256 draw minutes email w.pool)
