-- ===== src/Auth.antt =====
-- internal/api/middlewares/jwt_middleware.go and exclude_routes.go: which requests reach the handlers
-- and with what in their context. `jwt.Parse` of golang-jwt is a parameter.
pub mod Authenticated
mod Tests
use student_system_go.Common.{
  String, Bool, true, false, ◌||◌, Option, none, some, List, [], ◌∷◌, any, if◌then◌else◌,
}
use student_system_go.Common.Text.{same, has_prefix}
use student_system_go.Http.{Reply, failed, Handler}

-- What `jwt.Parse` returns, in the order in which the middleware asks: an error that is ErrTokenExpired,
-- ErrTokenMalformed or another, a token that is not valid, one without MapClaims, and the claims.
pub data Parsed (C : Type 0) : Type 0 where
  expired : Parsed C
  malformed : Parsed C
  refused : Parsed C
  not_valid : Parsed C
  other_claims : Parsed C
  valid : C → Parsed C

-- A request: its path, the cookie "Bearer", and the claims that a middleware has put into the context.
pub record Request (C : Type 0) : Type 0 where
  pub path : String
  pub cookie : Option String
  pub claims : Option C

abbrev pub Served : Type 0 → Type 0 → Type 0 → Type 0
Served C W A = Request C → Handler W A

module _ {C W A : Type 0} where
  abbrev pub with_claims : Parsed C → Served C W A → Served C W A
  with_claims expired next r w = (failed 401 "Token expired", w)
  with_claims malformed next r w = (failed 401 "Token malformed", w)
  with_claims refused next r w = (failed 401 "Invalid token", w)
  with_claims not_valid next r w = (failed 401 "Invalid token", w)
  with_claims other_claims next r w = (failed 401 "Invalid token claims", w)
  with_claims (valid c) next r w = next (record r { claims = some c }) w

  -- `parse` is `jwt.Parse` with the key function, which refuses other methods than HMAC: it takes
  -- the secret and the token.
  abbrev pub with_token :
      (String → String → Parsed C) → String → Option String → Served C W A → Served C W A
  with_token parse secret none next r w = (failed 401 "Authorization cookie missing", w)
  with_token parse secret (some token) next r w =
      if same secret ""
      then (failed 500 "Server configuration error", w)
      else with_claims (parse secret token) next r w

  -- `JWTMiddleware`; `secret` is the variable JWT_SECRET.
  unfoldable pub jwt_middleware :
      (String → String → Parsed C) → String → Served C W A → Served C W A
  jwt_middleware parse secret next r w =
      if same r.path "/execs/login" || same r.path "/execs/logout"
      then next r w
      else with_token parse secret r.cookie next r w

  -- `MiddlewaresExcludePaths`
  unfoldable pub middlewares_exclude_paths :
      (Served C W A → Served C W A) → List String → Served C W A → Served C W A
  unfolding has_prefix
  middlewares_exclude_paths middleware paths next r w =
      if any (λ path. has_prefix r.path path) paths then next r w else middleware next r w

-- The paths that `main` excludes from the check.
abbrev pub excluded_paths : List String
excluded_paths =
    "/execs/login" ∷ "/execs/forgotpassword" ∷ "/execs/resetpassword/reset" ∷ "/healthz"
    ∷ "/metrics" ∷ []

-- The value "role" of the context, if it is a string.
abbrev pub role_in : {C : Type 0} → (C → Option String) → Option C → Option String
role_in role none = none
role_in role (some c) = role c
