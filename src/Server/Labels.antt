-- ===== src/Server/Labels.antt =====
-- The labels of the metrics for the requests that the JWT check lets through.
use student_system_go.Common.{
  ◌≡◌, refl, inl, inr, String, true, false, ◌||◌, Option, none, some, List, [], ◌∷◌, ◌++◌,
  Bool-cases,
}
use student_system_go.Common.Text.{same}
use student_system_go.Limiter.{
  Counters, Verdict, fail_open, allow, deny, crash, Limit, redis_rate_limit, path_only, is_path,
}
use student_system_go.Auth.{
  Parsed, expired, malformed, refused, not_valid, other_claims, valid, excluded_paths, with_claims,
  with_token, jwt_middleware, middlewares_exclude_paths,
}
use student_system_go.Server.{Request, Ran, Site, Served, apply_middlewares}
use student_system_go.Server.Layers.{
  cors, response_time_middleware, metrics_middleware, record_labels, normalize_path, last_status,
  visit_of, limited, rate_limit_layer, jwt_layer, is_origin_allowed, allowed_origins, checked,
  reply_ran,
}
use student_system_go.Server.Chain.{
  Env, login_limit, global_limit, sanitized, checked_routes, login_limited, limited_routes,
  secure_mux,
}
use student_system_go.Server.Closed.{IsProtected, inner}

-- The pattern of the request is as it was.
abbrev LeavesPattern : {C W : Type 0} → Request C → Ran C × W → Type 0
LeavesPattern r x = x.0.left.pattern ≡ r.pattern

module _ {C W : Type 0} (parse : String → String → Parsed C) (secret : String) (next : Served C W)
    (r : Request C) (w : W) where
  with_claims-pattern :
      (found : Parsed C)
      → LeavesPattern r (reply_ran r (with_claims found (inner parse secret next r) (checked r) w))
  with_claims-pattern expired = refl
  with_claims-pattern malformed = refl
  with_claims-pattern refused = refl
  with_claims-pattern not_valid = refl
  with_claims-pattern other_claims = refl
  with_claims-pattern (valid c) = refl

  with_token-pattern :
      (cookie : Option String)
      → LeavesPattern r
          (reply_ran r (with_token parse secret cookie (inner parse secret next r) (checked r) w))
  with_token-pattern none = refl
  with_token-pattern (some token) = elim (Bool-cases (same secret "")) [
    | inl unset ↦ rw unset
    | inr set ↦ rw set (with_claims-pattern (parse secret token))
  ]

  jwt_layer-pattern :
      IsProtected r.path → LeavesPattern r (jwt_layer parse secret excluded_paths next r w)
  unfolding jwt_layer middlewares_exclude_paths jwt_middleware
  jwt_layer-pattern h = rw (h.not_excluded, h.not_session) (with_token-pattern r.cookie)

module _ {C S : Type 0} (redis : Counters) (next : Served C (Site redis S)) (r : Request C)
    (kept : (s : Site redis S) → LeavesPattern r (next r s)) where
  limited-pattern : (v : Verdict) (s : Site redis S) → LeavesPattern r (limited redis v next r s)
  limited-pattern fail_open s = kept s
  limited-pattern (allow h) s = kept s
  limited-pattern (deny h seconds) s = refl
  limited-pattern crash s = refl

  rate_limit_layer-pattern :
      (split_host : String → Option String) (l : Limit) (s : Site redis S)
      → LeavesPattern r (rate_limit_layer redis split_host l next r s)
  unfolding rate_limit_layer
  rate_limit_layer-pattern split_host l s =
      let decided = redis_rate_limit redis l (visit_of split_host l.name r) s.counters in
      limited-pattern decided.0 (record s { counters = decided.1 })

  path_only-pattern :
      (split_host : String → Option String) (l : Limit) (paths : List String) (s : Site redis S)
      → LeavesPattern r (path_only paths (rate_limit_layer redis split_host l) r.path next r s)
  path_only-pattern split_host l paths s = elim (Bool-cases (is_path r.path paths)) [
    | inl here ↦ rw here (rate_limit_layer-pattern split_host l s)
    | inr other ↦ rw other (kept s)
  ]

module _ {C S : Type 0} (redis : Counters) (env : Env C) (router : Served C (Site redis S)) where
  limited_routes-pattern :
      (r : Request C) (s : Site redis S)
      → IsProtected r.path
      → LeavesPattern r (limited_routes redis env router r s)
  limited_routes-pattern r s protects =
      rate_limit_layer-pattern redis (login_limited redis env router) r
        (path_only-pattern redis (checked_routes redis env router) r
          (λ v. jwt_layer-pattern env.parse env.secret (sanitized redis env router) r v protects)
          env.split_host login_limit ("/execs/login" ∷ []))
        env.split_host global_limit s

  record_labels-path :
      (r : Request C) (x : Ran C × Site redis S)
      → LeavesPattern r x
      → r.pattern ≡ ""
      → x.0.panicked ≡ false
      → (record_labels redis x).1.recorded
        ≡ x.1.recorded ++ (x.0.left.method, x.0.left.path, last_status 200 x.0.actions) ∷ []
  unfolding normalize_path
  record_labels-path r x kept fresh ran = rw (ran, kept, fresh)

  -- A request that CORS admits and that the JWT check does not pass over is counted, unless its handler
  -- panics, under the path of its URL, whatever route it is given by the router, since the router sets the
  -- pattern of a copy of the request. `Middleware` is to count it under the pattern of its route.
  pub secure_mux-path :
      (r : Request C) (s : Site redis S)
      → IsProtected r.path
      → r.pattern ≡ ""
      → same r.path "/metrics" ≡ false
      → (same r.origin "" || is_origin_allowed r.origin allowed_origins) ≡ true
      → same r.method "OPTIONS" ≡ false
      → (limited_routes redis env router r s).0.panicked ≡ false
      → (secure_mux redis env router r s).1.recorded
        ≡ (limited_routes redis env router r s).1.recorded
          ++ (
            (limited_routes redis env router r s).0.left.method,
            (limited_routes redis env router r s).0.left.path,
            last_status 200 (limited_routes redis env router r s).0.actions,
          )
            ∷ []
  unfolding secure_mux apply_middlewares response_time_middleware cors metrics_middleware
  secure_mux-path r s protects fresh page admitted method ran =
      rw (admitted, method, page)
        (record_labels-path r (limited_routes redis env router r s)
          (limited_routes-pattern r s protects) fresh ran)
