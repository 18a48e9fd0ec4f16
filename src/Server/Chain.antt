-- ===== src/Server/Chain.antt =====
-- The chain of cmd/api/server.go.
use student_system_go.Common.{String, Option, [], ◌∷◌}
use student_system_go.Query.{Params}
use student_system_go.Limiter.{Counters, Limit, path_only}
use student_system_go.Auth.{Parsed, excluded_paths}
use student_system_go.Hpp.{main_whitelist}
use student_system_go.Server.{Site, Served, apply_middlewares}
use student_system_go.Server.Layers.{
  Gzip, cors, security_headers, response_time_middleware, compression, metrics_middleware,
  rate_limit_layer, jwt_layer,
}
use student_system_go.Server.Sanitizing.{JsonCodec, xss_middleware, hpp}

-- What the server takes from the libraries and from its environment: `jwt.Parse`, the variable
-- JWT_SECRET, the policy of bluemonday, `encoding/json`, `ParseForm`, gzip, `net.SplitHostPort` and the
-- duration that is measured.
pub record Env (C : Type 0) : Type 0 where
  pub parse : String → String → Parsed C
  pub secret : String
  pub sanitize : String → String
  pub codec : JsonCodec
  pub parse_form : String → Option Params
  pub gzip : Gzip
  pub split_host : String → Option String
  pub duration : String

-- `globalRateLimit` and `loginRateLimit`
abbrev pub global_limit : Limit
global_limit = record { name = "global"; limit = 100; window = 60 }

abbrev pub login_limit : Limit
login_limit = record { name = "login"; limit = 10; window = 60 }

module _ {C S : Type 0} (redis : Counters) (env : Env C) where
  -- What stands behind the JWT check, the limiters and the metrics.
  abbrev pub sanitized : Served C (Site redis S) → Served C (Site redis S)
  sanitized router =
      xss_middleware env.codec env.sanitize
        (hpp env.parse_form main_whitelist (compression env.gzip (security_headers router)))

  abbrev pub checked_routes : Served C (Site redis S) → Served C (Site redis S)
  checked_routes router = jwt_layer env.parse env.secret excluded_paths (sanitized router)

  abbrev pub login_limited : Served C (Site redis S) → Served C (Site redis S)
  login_limited router r =
      path_only ("/execs/login" ∷ []) (rate_limit_layer redis env.split_host login_limit) r.path
        (checked_routes router) r

  abbrev pub limited_routes : Served C (Site redis S) → Served C (Site redis S)
  limited_routes router = rate_limit_layer redis env.split_host global_limit (login_limited router)

  abbrev pub measured : Served C (Site redis S) → Served C (Site redis S)
  measured router = metrics_middleware redis (limited_routes router)

  -- `secureMux`
  unfoldable pub secure_mux : Served C (Site redis S) → Served C (Site redis S)
  unfolding apply_middlewares jwt_layer xss_middleware hpp compression security_headers
      rate_limit_layer metrics_middleware response_time_middleware cors
  secure_mux router = apply_middlewares router (
      security_headers
      ∷ compression env.gzip
      ∷ hpp env.parse_form main_whitelist
      ∷ xss_middleware env.codec env.sanitize
      ∷ jwt_layer env.parse env.secret excluded_paths
      ∷ (λ next r.
          path_only ("/execs/login" ∷ []) (rate_limit_layer redis env.split_host login_limit) r.path
            next r)
      ∷ rate_limit_layer redis env.split_host global_limit
      ∷ metrics_middleware redis
      ∷ response_time_middleware env.duration
      ∷ cors
      ∷ [])
