-- ===== src/Server/Layers.antt =====
-- The middlewares that neither parse nor sanitize.
use student_system_go.Common.{
  ℕ, String, Bool, true, false, ◌||◌, Option, none, some, List, [], ◌∷◌, ◌++◌, if◌then◌else◌,
}
use student_system_go.Common.Int.{pos}
use student_system_go.Common.Text.{same, ◌<>◌, contains, cut_at}
use student_system_go.Common.Decimal.{itoa}
use student_system_go.Http.{Reply, failed, sent, closed}
use student_system_go.Limiter.{
  Counters, RateHeaders, Verdict, fail_open, allow, deny, crash, Limit, Visit, client_ip,
  redis_rate_limit,
}
use student_system_go.Auth
use student_system_go.Auth.{jwt_middleware, middlewares_exclude_paths}
use student_system_go.Server.{
  Action, set_header, write_header, write, http_error, Request, Ran, Site, Served, answers, before,
}

-- `allowedOrigins`
abbrev pub allowed_origins : List String
allowed_origins = "http://localhost:3000" ∷ "http://example.com" ∷ []

-- `isOriginAllowed`
abbrev pub is_origin_allowed : String → List String → Bool
is_origin_allowed origin [] = false
is_origin_allowed origin (allowed ∷ origins) =
    if same origin allowed then true else is_origin_allowed origin origins

abbrev pub cors_headers : String → List Action
cors_headers origin =
    set_header "Access-Control-Allow-Origin" origin
    ∷ set_header "Access-Control-Allow-Origin" origin
    ∷ set_header "Access-Control-Allow-Methods" "GET, POST, PUT, DELETE, PATCH"
    ∷ set_header "Access-Control-Allow-Headers" "Content-Type, Authorization"
    ∷ set_header "Access-Control-Allow-Credentials" "true"
    ∷ set_header "Access-Control-Expose-Headers" "Authorization"
    ∷ set_header "Access-Control-Max-Age" "3600"
    ∷ []

abbrev pub security_header_list : List Action
security_header_list =
    set_header "X-DNS-Prefetch-Control" "off"
    ∷ set_header "Content-Security-Policy" "default-src 'self'"
    ∷ set_header "X-Content-Type-Options" "nosniff"
    ∷ set_header "X-Frame-Options" "DENY"
    ∷ set_header "X-XSS-Protection" "1; mode=block"
    ∷ set_header "Strict-Transport-Security" "max-age=63072000; includeSubDomains; preload"
    ∷ set_header "Referrer-Policy" "no-referrer"
    ∷ set_header "X-Powered-By" "Django"
    ∷ []

-- The bytes that go into a `gzip.Writer`, which is closed after the handler, and the calls that pass it.
abbrev pub bytes_of : List Action → String
bytes_of [] = ""
bytes_of (write bytes ∷ acts) = bytes <> bytes_of acts
bytes_of (_ ∷ acts) = bytes_of acts

abbrev pub without_writes : List Action → List Action
without_writes [] = []
without_writes (set_header k v ∷ acts) = set_header k v ∷ without_writes acts
without_writes (write_header status ∷ acts) = write_header status ∷ without_writes acts
without_writes (write bytes ∷ acts) = without_writes acts

-- A `gzip.Writer` sends its header with the first `Write`, or with `Close`, and the rest of the stream of
-- what it was given later; no call after its header changes what the client sees as status or headers.
pub record Gzip : Type 0 where
  pub head : String
  pub rest : String → String

abbrev opened : String → List Action → List Action
opened head [] = write head ∷ []
opened head (set_header name value ∷ acts) = set_header name value ∷ opened head acts
opened head (write_header status ∷ acts) = write_header status ∷ opened head acts
opened head (write bytes ∷ acts) = write head ∷ without_writes acts

abbrev pub gzipped_actions : Gzip → List Action → List Action
gzipped_actions gzip acts =
    set_header "Content-Encoding" "gzip" ∷ opened gzip.head acts
    ++ write (gzip.rest (bytes_of acts)) ∷ []

-- The status that the recorder of the metrics holds: that of the last call of `WriteHeader`.
abbrev pub last_status : ℕ → List Action → ℕ
last_status status [] = status
last_status status (write_header n ∷ acts) = last_status n acts
last_status status (_ ∷ acts) = last_status status acts

abbrev after_space : String → Option (String × String) → String
after_space pattern none = pattern
after_space pattern (some (method, path)) = path

-- `normalizePath`
unfoldable pub normalize_path : String → String → String
unfolding cut_at
normalize_path pattern path =
    if same pattern "" then path else after_space pattern (cut_at b' ' pattern)

abbrev pub rate_actions : RateHeaders → List Action
rate_actions h =
    set_header "X-RateLimit-Limit" (itoa (pos h.limit))
    ∷ set_header "X-RateLimit-Remaining" (itoa (pos h.remaining))
    ∷ set_header "X-RateLimit-Reset" (itoa (pos h.reset))
    ∷ []

module _ {C : Type 0} where
  -- `split_host` is `net.SplitHostPort`.
  abbrev pub visit_of : (String → Option String) → String → Request C → Visit
  unfolding client_ip
  visit_of split_host name r = record {
    ip = client_ip r.forwarded_for r.real_ip r.remote_addr (split_host r.remote_addr);
    now = (r.times name).0;
    later = (r.times name).1;
  }

  -- `r.WithContext` passes a copy on. The copy shares the URL, so what is done to it shows in the
  -- request; the form, the body and the pattern of the copy are its own.
  abbrev pub of_copy : Request C → Ran C → Ran C
  of_copy r n = record n { left = record r { path = n.left.path; query = n.left.query } }

  abbrev pub checked : Request C → Auth.Request C
  checked r = record { path = r.path; cookie = r.cookie; claims = none }

module _ {C W : Type 0} where
  -- `Cors`
  unfoldable pub cors : Served C W → Served C W
  cors next r w =
      if same r.origin "" || is_origin_allowed r.origin allowed_origins
      then if same r.method "OPTIONS"
        then (answers r (cors_headers r.origin), w)
        else before (cors_headers r.origin) (next r w)
      else (answers r (http_error 403 "Forbidden by CORS"), w)

  -- `SecurityHeaders`
  unfoldable pub security_headers : Served C W → Served C W
  security_headers next r w = before security_header_list (next r w)

  -- `ResponseTimeMiddleware`; the duration is read before the handler runs.
  unfoldable pub response_time_middleware : String → Served C W → Served C W
  response_time_middleware duration next r w =
      before (set_header "X-Response-Time" duration ∷ []) (next r w)

  -- The second run, into the `gzip.Writer`; `left` is the request after the first one.
  abbrev pub run_gzipped : Gzip → Served C W → Ran C × W → Ran C × W
  run_gzipped gzip next (first, w) =
      if first.panicked
      then (first, w)
      else let (second, v) = next first.left w in
        (record second { actions = first.actions ++ gzipped_actions gzip second.actions }, v)

  -- `Compression`
  unfoldable pub compression : Gzip → Served C W → Served C W
  unfolding contains
  compression gzip next r w =
      if contains r.accept_encoding "gzip" then next r w else run_gzipped gzip next (next r w)

module _ {C S : Type 0} (redis : Counters) where
  -- `Middleware` of the metrics
  abbrev pub record_labels : Ran C × Site redis S → Ran C × Site redis S
  record_labels (n, s) = if n.panicked then (n, s) else (
    n,
    record s {
      recorded =
          s.recorded
          ++ (n.left.method, normalize_path n.left.pattern n.left.path, last_status 200 n.actions)
            ∷ [];
    },
  )

  unfoldable pub metrics_middleware : Served C (Site redis S) → Served C (Site redis S)
  unfolding normalize_path
  metrics_middleware next r s =
      if same r.path "/metrics" then next r s else record_labels (next r s)

  abbrev pub limited : Verdict → Served C (Site redis S) → Served C (Site redis S)
  limited fail_open next r s = next r s
  limited (allow h) next r s = before (rate_actions h) (next r s)
  limited (deny h seconds) next r s = (
    answers r (
        rate_actions h
        ++ set_header "Retry-After" (itoa (pos seconds)) ∷ http_error 429 "Too Many Requests"),
    s,
  )
  limited crash next r s = (record { actions = []; left = r; panicked = true }, s)

  -- `RedisRateLimit`
  unfoldable pub rate_limit_layer :
      (String → Option String) → Limit → Served C (Site redis S) → Served C (Site redis S)
  unfolding redis_rate_limit client_ip
  rate_limit_layer split_host l next r s =
      let (verdict, counters) =
        redis_rate_limit redis l (visit_of split_host l.name r) s.counters in
      limited verdict next r (record s { counters = counters })

module _ {C W : Type 0} where
  -- The handlers of the JWT check, whose answers are those of `http.Error` or of the next handler.
  abbrev pub reply_ran : Request C → Reply (Ran C) × W → Ran C × W
  reply_ran r (failed status message, w) = (answers r (http_error status message), w)
  reply_ran r (sent status n, w) = (n, w)
  reply_ran r (closed, w) = (record { actions = []; left = r; panicked = true }, w)

  -- The next handler gets the request itself if the check was passed over, and a copy with the claims
  -- if it was not.
  abbrev pub with_context : Served C W → Request C → Option C → W → Ran C × W
  with_context next r none w = next r w
  with_context next r (some c) w =
      let (n, v) = next (record r { claims = some c }) w in (of_copy r n, v)

  -- `MiddlewaresExcludePaths(JWTMiddleware, paths...)`
  unfoldable pub jwt_layer :
      (String → String → Auth.Parsed C) → String → List String → Served C W → Served C W
  unfolding jwt_middleware middlewares_exclude_paths
  jwt_layer parse secret paths next r w = reply_ran r (
      middlewares_exclude_paths (jwt_middleware parse secret) paths
        (λ a v. let (n, u) = with_context next r a.claims v in (sent 200 n, u)) (checked r) w)
