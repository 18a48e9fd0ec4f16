-- ===== src/Server/Tests.antt =====
-- Requests through the chain, with counters in memory and one route.
use student_system_go.Common.{
  ℕ, zero, suc, ◌≡◌, ◌≢◌, refl, String, true, false, none, some, List, [], ◌∷◌, ◌++◌, if◌then◌else◌,
}
use student_system_go.Common.Text.{same, has_prefix, contains}
use student_system_go.Hpp.{filter_query_params}
use student_system_go.Limiter.{Counters, redis_rate_limit, client_ip}
use student_system_go.Auth.{refused, valid, jwt_middleware, middlewares_exclude_paths}
use student_system_go.Server.{
  Action, write_header, http_error, Request, Site, Served, answers, apply_middlewares,
}
use student_system_go.Server.Layers.{
  cors, security_headers, response_time_middleware, compression, metrics_middleware, normalize_path,
  last_status, rate_limit_layer, jwt_layer,
}
use student_system_go.Server.Sanitizing.{xss_middleware, hpp}
use student_system_go.Server.Chain.{Env, limited_routes, secure_mux}
use student_system_go.Server.Twice.{received, compression-Twice}
use student_system_go.Server.Closed.{IsProtected, secure_mux-closed}
use student_system_go.Server.Labels.{secure_mux-path}

abbrev in_memory : Counters
in_memory = record {
  S = String → ℕ;
  incr = λ k s. (some (suc (s k)), λ j. if same j k then suc (s k) else s j);
  expire = λ k seconds s. s;
}

-- The one token that is accepted is "good".
abbrev env : Env Unit
env = record {
  parse = λ secret token. if same token "good" then valid tt else refused;
  secret = "secret";
  sanitize = λ s. s;
  codec = record { decode = λ s. none; encode = λ j. none };
  parse_form = λ s. none;
  gzip = record { head = "gzip:"; rest = λ s. s };
  split_host = λ s. none;
  duration = "0s";
}

-- A route that counts its requests, and answers the second one with 404.
abbrev counted_answer : ℕ → List Action
counted_answer zero = write_header 204 ∷ []
counted_answer (suc n) = http_error 404 "Student not found"

abbrev route : {C : Type 0} → Served C ℕ
route r n = (answers (record r { pattern = "DELETE /students/{id}" }) (counted_answer n), suc n)

abbrev router : Served Unit (Site in_memory ℕ)
router r s = let (n, k) = route r s.app in (n, record s { app = k })

abbrev delete_one : Request Unit
delete_one = record {
  method = "DELETE";
  path = "/students/42";
  query = [];
  origin = "";
  accept_encoding = "";
  content_type = "";
  forwarded_for = "";
  real_ip = "";
  remote_addr = "10.0.0.1";
  cookie = some "good";
  body = some "";
  form = [];
  claims = none;
  pattern = "";
  times = λ name. (120, 120);
}

abbrev start : Site in_memory ℕ
start = record { counters = λ k. 0; recorded = []; app = 0 }

pub is_protected : IsProtected "/students/42"
unfolding has_prefix
is_protected = record { not_excluded = refl; not_session = refl }

-- One request without Accept-Encoding runs its route twice.
chain_tests :
    ((secure_mux in_memory env router delete_one start).1.app ≡ 2)
    × ((secure_mux in_memory env router
          (record delete_one { accept_encoding = "gzip" })
          start).1.app
        ≡ 1)
    × ((secure_mux in_memory env router
          (record delete_one { origin = "http://evil.org" })
          start).1.app
        ≡ 0)
    × ((secure_mux in_memory env router
          (record delete_one { content_type = "text/plain" })
          start).1.app
        ≡ 0)
    × ((secure_mux in_memory env router delete_one start).1.recorded
        ≡ ("DELETE", "/students/42", 404) ∷ [])
unfolding secure_mux apply_middlewares cors security_headers response_time_middleware compression
    metrics_middleware normalize_path rate_limit_layer jwt_layer xss_middleware hpp
    filter_query_params contains has_prefix redis_rate_limit client_ip jwt_middleware
    middlewares_exclude_paths
chain_tests = (refl, refl, refl, refl, refl)

compression-Twice_example :
    (contains delete_one.accept_encoding "gzip" ≡ true
      → compression env.gzip route delete_one 0 ≡ route delete_one 0)
    × (contains delete_one.accept_encoding "gzip" ≡ false
        → (route delete_one 0).0.panicked ≡ false
        → ((compression env.gzip route delete_one 0).1
            ≡ (route (route delete_one 0).0.left (route delete_one 0).1).1)
          × ((status : ℕ) (headers : List (String × String))
              → received (route delete_one 0).0 ≡ some (status, headers)
              → received (compression env.gzip route delete_one 0).0 ≡ some (status, headers)))
compression-Twice_example = compression-Twice env.gzip route delete_one 0

abbrev without_token : Request Unit
without_token = record delete_one { cookie = none }

not_accepted :
    (token : String) (c : Unit) → none ≡ some token → env.parse env.secret token ≢ valid c
not_accepted token c h = cc

secure_mux-closed_example : (secure_mux in_memory env router without_token start).1.app ≡ 0
secure_mux-closed_example =
    secure_mux-closed in_memory env router without_token start is_protected not_accepted

runs : (limited_routes in_memory env router delete_one start).0.panicked ≡ false
unfolding cors security_headers compression rate_limit_layer jwt_layer xss_middleware hpp
    filter_query_params contains has_prefix redis_rate_limit client_ip jwt_middleware
    middlewares_exclude_paths
runs = refl

secure_mux-path_example :
    (secure_mux in_memory env router delete_one start).1.recorded
    ≡ (limited_routes in_memory env router delete_one start).1.recorded
      ++ (
        (limited_routes in_memory env router delete_one start).0.left.method,
        (limited_routes in_memory env router delete_one start).0.left.path,
        last_status 200 (limited_routes in_memory env router delete_one start).0.actions,
      )
        ∷ []
secure_mux-path_example =
    secure_mux-path in_memory env router delete_one start is_protected refl refl refl refl runs
