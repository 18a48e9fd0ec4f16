-- ===== src/Login/Tests.antt =====
-- Runs of the account handlers, and the theorems at a server with one exec.
use student_system_go.Common.{
  ℕ, ◌≡◌, ◌≢◌, refl, ap, inl, inr, String, Bool, true, false, ◌&&◌, not, Option, none, some, [],
  ◌∷◌, suc, arith, eq_iff, Bool-cases, ◌==◌, if◌then◌else◌,
}
use student_system_go.Common.Int.{ℤ, pos, ◌==ℤ◌, ==ℤ_iff}
use student_system_go.Common.Text.{same, has_prefix}
use student_system_go.Reflect.{int, text, bool}
use student_system_go.Reflect.Json.{Json, str, obj, end, member}
use student_system_go.Reflect.Decode.{decode_struct}
use student_system_go.Models.{Exec, zero_exec}
use student_system_go.Codes.{Bytes}
use student_system_go.Passwords.{Argon2, verify_password}
use student_system_go.Sql.{Sql, Pool, no_rows, row, no_rows, refused}
use student_system_go.Auth.{
  valid, Request, jwt_middleware, middlewares_exclude_paths, excluded_paths,
}
use student_system_go.Auth.Authenticated.{guarded}
use student_system_go.Http.{failed, sent, Handler, with_role}
use student_system_go.Queue.{Channel, answered, publish_json}
use student_system_go.Accounts.{Clock, Draw, select_user, get_user_by_username, prepare_reset_token}
use student_system_go.Accounts.Memory.{one_account, one_account-IsAccounts}
use student_system_go.SignToken.{Claims, Jwt, JwtEnv, sign_token}
use student_system_go.Login.{LoggedIn, login_handler, ForgotWorld, forgot_password_handler}
use student_system_go.Login.Admits.{LoginEnds, Admitted, login_handler-LoginEnds}
use student_system_go.Login.Session.{IsJwt, claims_role, login_handler-middlewares_exclude_paths}
use student_system_go.Login.Forgot.{ForgotEnds, forgot_password_handler-ForgotEnds}

-- A server that knows one user, whose stored password is that of the tests of Passwords.
abbrev stored : String
stored = "AA==.AA=="

abbrev users : Sql
users = record {
  S = Bool;
  query_row = λ q args active.
      if same q select_user
      then row (
          int (pos 7)
          ∷ text "Ada"
          ∷ text "L"
          ∷ text "ada@x"
          ∷ text "ada"
          ∷ text stored
          ∷ bool (not active)
          ∷ text "admin"
          ∷ [])
      else no_rows;
  read_row = λ q args s. no_rows;
  query = λ q args s. none;
  prepare = λ q s. false;
  exec = λ q args s. (refused "read only", s);
  begin = λ s. (false, s);
  tx_exec = λ q args s. (refused "read only", s);
  commit = λ s. (false, s);
  rollback = λ s. s;
}

-- A key function that tells one password from the others.
abbrev key : Argon2
key password salt = if same password "secret" then 0 ∷ [] else 1 ∷ []

abbrev body : String → Option Json
body password = some (obj (member "username" (str "ada") (member "password" (str password) end)))

-- A signer that knows one token.
abbrev ada_claims : Claims ℕ
ada_claims = record { uid = pos 7; user = "ada"; role = "admin"; exp = 15 }

abbrev is_ada : Claims ℕ → Bool
is_ada c = (c.uid ==ℤ pos 7) && (same c.user "ada" && (same c.role "admin" && (c.exp == 15)))

abbrev one_token : Jwt
one_token = record {
  D = ℕ;
  E = ℕ;
  parse_duration = λ s. none;
  quarter_hour = 15;
  expiry = λ d. d;
  sign = λ secret c. if is_ada c then some "token" else none;
  parse = λ secret token. valid ada_claims;
}

and-true : (a b : Bool) → (a && b) ≡ true → (a ≡ true) × (b ≡ true)
and-true true b h = (refl, h)
and-true false b h = cc

is_ada-claims : (c : Claims ℕ) → is_ada c ≡ true → ada_claims ≡ c
is_ada-claims c h =
    let (id_tested, rest) = and-true _ _ h in
    let (user_tested, more) = and-true _ _ rest in
    let (role_tested, exp_tested) = and-true _ _ more in
    let same_id : c.uid ≡ pos 7 = (==ℤ_iff c.uid (pos 7)).0 id_tested in
    let same_user : c.user ≡ "ada" = (eq_iff c.user "ada").0 user_tested in
    let same_role : c.role ≡ "admin" = (eq_iff c.role "admin").0 role_tested in
    let same_exp : c.exp ≡ 15 = ground arith in cc

one_token-signed :
    (c : Claims ℕ) (token : String)
    → (if is_ada c then some "token" else none) ≡ some token
    → valid ada_claims ≡ valid c
one_token-signed c token h = elim (Bool-cases (is_ada c)) [
  | inl yes_ada ↦ ap valid (is_ada-claims c yes_ada)
  | inr other ↦ cc (rw other at h)
]

unfoldable one_token-IsJwt : IsJwt one_token
one_token-IsJwt = record {
  is_current = λ e. true;
  parse_signed = λ secret token c h current. one_token-signed c token h;
}

abbrev env : JwtEnv
env = record { secret = "s"; expires_in = "" }

abbrev pool : Pool users
pool = record { ready = true; read_ready = true; server = true }

abbrev logged_in : LoggedIn
logged_in = record { bearer = "token"; token = "token" }

login_run : login_handler users key one_token env (body "secret") pool ≡ (sent 200 logged_in, pool)
unfolding login_handler sign_token verify_password get_user_by_username decode_struct
login_run = refl

login_tests :
    ((login_handler users key one_token env (body "other") pool).0
      ≡ failed 401 "incorrect password")
    × ((login_handler users key one_token env
          (body "secret")
          (record { ready = true; read_ready = true; server = false })).0
        ≡ failed 403 "user is inactive")
    × ((login_handler users key one_token env (body "") pool).0
        ≡ failed 400 "Username and password are required")
unfolding login_handler sign_token verify_password get_user_by_username decode_struct
login_tests = (refl, refl, refl)

login_handler-LoginEnds_example :
    LoginEnds users key one_token env
      (body "secret")
      pool
      (login_handler users key one_token env (body "secret") pool)
login_handler-LoginEnds_example =
    login_handler-LoginEnds users key one_token env (body "secret") pool

abbrev counting : Handler ℕ String
counting n = (sent 200 "done", suc n)

abbrev request : Request (Claims ℕ)
request = record { path = "/students"; cookie = some "token"; claims = none }

secret_is_set : ◌≢◌ {A = String} "s" ""
secret_is_set = ground (arith, eq_iff "s" "")

login_handler-middlewares_exclude_paths_example :
    (a : Admitted users key one_token env (body "secret") pool "token") × (middlewares_exclude_paths
        (jwt_middleware one_token.parse "s")
        excluded_paths
        (guarded one_token.parse claims_role "s" ("admin" ∷ []) counting)
        request
        0
      ≡ with_role (some a.user.role) ("admin" ∷ []) counting 0)
unfolding has_prefix one_token-IsJwt
login_handler-middlewares_exclude_paths_example =
    login_handler-middlewares_exclude_paths one_token-IsJwt env users key (body "secret") pool pool
      logged_in 15 excluded_paths ("admin" ∷ []) counting request 0 login_run refl refl
      secret_is_set refl refl refl

-- The request of a token at a server with one exec, and a broker that counts its messages.
abbrev broker : Channel
broker = record {
  S = ℕ;
  publish = λ queue message n. (none, suc n);
  wait = λ n. (answered (n == 1), n);
}

abbrev minutes : Clock
minutes = record {
  Time = ℤ;
  add_minutes = λ d t. d;
  date_time = λ t. "expiry";
  rfc3339 = λ t. "now";
}

abbrev first : Draw minutes
first = record { now = pos 0; salt = some (1 ∷ []); token = some (171 ∷ 5 ∷ []) }

abbrev sum : Bytes → Bytes
sum bs = 9 ∷ bs

abbrev ada : Exec
ada = record zero_exec { id = pos 7; email = "ada@x"; username = "ada" }

abbrev world : ℕ → ForgotWorld one_account broker
world n = record { pool = record { ready = true; read_ready = true; server = ada }; broker = n }

-- The address in another case: the row of ada is found, and the mail goes to the address as it was given.
abbrev email_body : Option Json
email_body = some (obj (member "email" (str "Ada@x") end))

forgot_tests :
    ((forgot_password_handler one_account broker minutes sum first "15" none email_body (world 0)).0
      ≡ sent 202 "Password reset link is being sent to Ada@x")
    × ((forgot_password_handler one_account broker minutes sum first "15" none email_body
          (world 1)).0
        ≡ failed 503 "Email service temporarily unavailable, please retry")
    × ((forgot_password_handler one_account broker minutes sum first "x" none email_body
          (world 0)).0
        ≡ failed 400 "Failed to prepare password reset")
unfolding forgot_password_handler prepare_reset_token decode_struct publish_json
forgot_tests = (refl, refl, refl)

forgot_password_handler-ForgotEnds_example :
    ForgotEnds one_account-IsAccounts broker minutes sum first "15" none email_body
      (world 0)
      (forgot_password_handler one_account broker minutes sum first "15" none email_body (world 0))
forgot_password_handler-ForgotEnds_example =
    forgot_password_handler-ForgotEnds one_account-IsAccounts broker minutes sum first "15" none
      email_body (world 0)
