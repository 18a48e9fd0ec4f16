-- ===== src/Login/Admits.antt =====
-- Who gets a token from a login.
use mathlib.Core.Path.{subst}
use mathlib.Core.Bool.{false≢true}
use student_system_go.Common.{
  ℕ, ◌≡◌, ◌≢◌, refl, sym, ap, ◌∙◌, ◌⊎◌, inl, inr, String, Bool, true, false, ◌||◌, Option, none,
  some, [], ◌∷◌, Option-cases, Bool-cases, eq_iff, if◌then◌else◌,
}
use student_system_go.Common.Text.{same}
use student_system_go.Go.{Result, ok, err, panic, ⊤, Call, gets, ◌>>=◌, ◌>>◌}
use student_system_go.Reflect.{text}
use student_system_go.Reflect.Json.{Json}
use student_system_go.Models.{Exec, zero_exec, exec_fields}
use student_system_go.Passwords.{Argon2, verify_password}
use student_system_go.Passwords.Verified.{verify_password-ne-panic}
use student_system_go.Sql.{Sql, Pool, not_initialised}
use student_system_go.Http.{Reply, failed as refused, sent}
use student_system_go.Repo.{Found, found, absent, broken, or_raise, or_message}
use student_system_go.Accounts.{get_user_by_username, select, select_user, scan_user}
use student_system_go.SignToken.{Jwt, JwtEnv, sign_token, sign_for, signed, lifetime}
use student_system_go.Login.{
  LoggedIn, body_of, token_sent, password_checked, user_found, credentials, login_handler,
}

-- The read of a user returns a row or an error, and changes nothing.
get_user_by_username-reads :
    (db : Sql) (name : String) (p : Pool db)
    → ((user : Exec) × (get_user_by_username db name p ≡ (ok user, p)))
      ⊎ ((cause : String) × (get_user_by_username db name p ≡ (err cause, p)))
unfolding get_user_by_username
get_user_by_username-reads db name p = go p.ready
  where
    Reads : Result Exec × Pool db → Type 0
    Reads x = ((user : Exec) × (x ≡ (ok user, p))) ⊎ ((cause : String) × (x ≡ (err cause, p)))

    raised : (f : Found Exec) → Reads (or_raise f "user not found" "Database query error" p)
    raised (found user) = inl (user, refl)
    raised absent = inr ("user not found", refl)
    raised broken = inr ("Database query error", refl)

    rest : Call (Pool db) Exec
    rest = do
      result ← gets (select db select_user (text name ∷ []) scan_user)
      or_raise result "user not found" "Database query error"

    go :
        (b : Bool)
        → Reads (
            ((λ (q : Pool db).
                  or_message
                    (if b then ok tt else err not_initialised)
                    "Database connection error"
                    q)
                >> rest)
              p)
    go false = inr ("Database connection error", refl)
    go true = raised (select db select_user (text name ∷ []) scan_user p)

sign_token-ne-panic :
    (jwt : Jwt) (env : JwtEnv) (user : Exec)
    → sign_token jwt env user.id user.username user.role ≢ panic
unfolding sign_token
sign_token-ne-panic jwt env user = go (lifetime jwt env)
  where
    signed-ne-panic : (o : Option String) → signed jwt env o ≢ panic
    signed-ne-panic none h = cc
    signed-ne-panic (some t) h = cc

    go : (o : Option jwt.D) → sign_for jwt env user.id user.username user.role o ≢ panic
    go none h = cc
    go (some d) h = signed-ne-panic _ h

module _ (db : Sql) (argon2 : Argon2) (jwt : Jwt) (env : JwtEnv) where
  -- Whom a login with this body lets in, on the pool `p`.
  pub record Admitted (body : Option Json) (p : Pool db) (token : String) : Type 0 where
    pub req : Exec
    pub user : Exec
    pub sent_body : body_of exec_fields zero_exec body ≡ some req
    pub read : get_user_by_username db req.username p ≡ (ok user, p)
    pub active : user.inactive_status ≡ false
    pub verified : verify_password argon2 req.password user.password ≡ ok tt
    pub signs : sign_token jwt env user.id user.username user.role ≡ ok token
    pub given : token ≢ ""

  -- How a login may end on the pool `p`.
  pub data LoginEnds (body : Option Json) (p : Pool db) : Reply LoggedIn × Pool db → Type 0 where
    turned_away : (status : ℕ) (message : String) → LoginEnds body p (refused status message, p)
    admitted :
        (token : String)
        → Admitted body p token
        → LoginEnds body p (sent 200 (record { bearer = token; token = token }), p)

  abbrev token_in : Reply LoggedIn × Pool db → String
  token_in (sent status l, p) = l.token
  token_in _ = ""

  abbrev bearer_in : Reply LoggedIn × Pool db → String
  bearer_in (sent status l, p) = l.bearer
  bearer_in _ = ""

  pub LoginEnds-bearer :
      (body : Option Json) (p q : Pool db) (l : LoggedIn) (x : Reply LoggedIn × Pool db)
      → LoginEnds body p x
      → x ≡ (sent 200 l, q)
      → l.bearer ≡ l.token
  LoginEnds-bearer body p q l _ (turned_away status message) e = cc
  LoginEnds-bearer body p q l _ (admitted token a) e = sym (ap bearer_in e) ∙ ap token_in e

  pub LoginEnds-Admitted :
      (body : Option Json) (p q : Pool db) (l : LoggedIn) (x : Reply LoggedIn × Pool db)
      → LoginEnds body p x
      → x ≡ (sent 200 l, q)
      → Admitted body p l.token
  LoginEnds-Admitted body p q l _ (turned_away status message) e = cc
  LoginEnds-Admitted body p q l _ (admitted token a) e = subst (Admitted body p) (ap token_in e) a

  module _ (body : Option Json) (p : Pool db) (req : Exec)
      (sent_body : body_of exec_fields zero_exec body ≡ some req) where
    module _ (user : Exec) (read : get_user_by_username db req.username p ≡ (ok user, p)) where
      token_sent-LoginEnds :
          (r : Result String)
          → user.inactive_status ≡ false
          → verify_password argon2 req.password user.password ≡ ok tt
          → sign_token jwt env user.id user.username user.role ≡ r
          → LoginEnds body p (token_sent db argon2 jwt env r p)
      token_sent-LoginEnds (ok token) active verified signs = elim (Bool-cases (same token "")) [
        | inl empty ↦ rw empty (turned_away 500 "failed to generate token")
        | inr given ↦ rw given (
            admitted token (record {
              req = req;
              user = user;
              sent_body = sent_body;
              read = read;
              active = active;
              verified = verified;
              signs = signs;
              given = λ e. absurd (false≢true (sym given ∙ (eq_iff token "").1 e));
            }))
      ]
      token_sent-LoginEnds (err cause) active verified signs =
          turned_away 500 "failed to generate token"
      token_sent-LoginEnds panic active verified signs =
          absurd (sign_token-ne-panic jwt env user signs)

      password_checked-LoginEnds :
          (r : Result ⊤)
          → user.inactive_status ≡ false
          → verify_password argon2 req.password user.password ≡ r
          → LoginEnds body p (password_checked db argon2 jwt env user r p)
      unfolding password_checked
      password_checked-LoginEnds (ok u) active verified =
          token_sent-LoginEnds (sign_token jwt env user.id user.username user.role) active verified
            refl
      password_checked-LoginEnds (err cause) active verified = turned_away 401 cause
      password_checked-LoginEnds panic active verified =
          absurd (verify_password-ne-panic argon2 req.password user.password verified)

      user_found-LoginEnds : LoginEnds body p (user_found db argon2 jwt env req.password user p)
      unfolding user_found password_checked
      user_found-LoginEnds = elim (Bool-cases user.inactive_status) [
        | inl inactive ↦ simp inactive (turned_away 403 "user is inactive")
        | inr active ↦ simp active (
            password_checked-LoginEnds (verify_password argon2 req.password user.password) active
              refl)
      ]

    credentials-LoginEnds : LoginEnds body p (credentials db argon2 jwt env req p)
    unfolding credentials user_found
    credentials-LoginEnds = elim (get_user_by_username-reads db req.username p) [
      | inl (user, read) ↦ rw read (user_found-LoginEnds user read)
      | inr (cause, read) ↦ rw read (turned_away 400 "Username and password are invalid")
    ]

  -- A login sends a token only if the body names a user that the table has, who is active, and whose
  -- stored password the given one verifies against. The token is the one that SignToken makes of this
  -- row's id, name and role, and it is not empty. Otherwise the login is refused. Either way the
  -- database is as before.
  pub login_handler-LoginEnds :
      (body : Option Json) (p : Pool db) → LoginEnds body p (login_handler db argon2 jwt env body p)
  unfolding login_handler credentials
  login_handler-LoginEnds body p = elim (Option-cases (body_of exec_fields zero_exec body)) [
    | inl bad ↦ rw bad (turned_away 400 "Invalid request body")
    | inr (req, good) ↦ rw good (elim (Bool-cases (same req.username "" || same req.password "")) [
      | inl blank ↦ rw blank (turned_away 400 "Username and password are required")
      | inr given ↦ rw given (credentials-LoginEnds body p req good)
    ])
  ]
