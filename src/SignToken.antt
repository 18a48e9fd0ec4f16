-- ===== src/SignToken.antt =====
-- `SignToken` of pkg/utils/jwt.go. golang-jwt, the clock and the environment are parameters.
use student_system_go.Common.{String, not, Option, none, some, if◌then◌else◌}
use student_system_go.Common.Int.{ℤ}
use student_system_go.Common.Text.{same}
use student_system_go.Go.{Result, ok, err}
use student_system_go.Auth.{Parsed}

-- `jwt.MapClaims` as `SignToken` fills it
pub record Claims (E : Type 0) : Type 0 where
  pub uid : ℤ
  pub user : String
  pub role : String
  pub exp : E

-- `time.ParseDuration`, `jwt.NewNumericDate(time.Now().Add(...))`, and the signing and parsing of a token
-- with a secret.
pub record Jwt : Type 1 where
  pub D : Type 0
  pub E : Type 0
  pub parse_duration : String → Option D
  pub quarter_hour : D
  pub expiry : D → E
  pub sign : String → Claims E → Option String
  pub parse : String → String → Parsed (Claims E)

-- The variables JWT_SECRET and JWT_EXPIRES_IN
pub record JwtEnv : Type 0 where
  pub secret : String
  pub expires_in : String

module _ (jwt : Jwt) (env : JwtEnv) where
  abbrev pub lifetime : Option jwt.D
  lifetime =
      if not (same env.expires_in "")
      then jwt.parse_duration env.expires_in
      else some jwt.quarter_hour

  abbrev pub claims_for : ℤ → String → String → jwt.D → Claims jwt.E
  claims_for id username role d = record {
    uid = id;
    user = username;
    role = role;
    exp = jwt.expiry d;
  }

  abbrev pub signed : Option String → Result String
  signed none = err "failed to sign JWT token"
  signed (some token) = ok token

  abbrev pub sign_for : ℤ → String → String → Option jwt.D → Result String
  sign_for id username role none = err "invalid JWT_EXPIRES_IN format"
  sign_for id username role (some d) = signed (jwt.sign env.secret (claims_for id username role d))

  -- `SignToken`
  unfoldable pub sign_token : ℤ → String → String → Result String
  sign_token id username role = sign_for id username role lifetime
