-- ===== src/Server/Closed.antt =====
-- The server without an accepted token.
use student_system_go.Common.{
  ◌≡◌, ◌≢◌, refl, ap, ◌∙◌, inl, inr, String, false, ◌||◌, Option, none, some, List, [], ◌∷◌, any,
  Bool-cases,
}
use student_system_go.Common.Text.{same, has_prefix}
use student_system_go.Limiter.{
  Counters, Verdict, fail_open, allow, deny, crash, Limit, redis_rate_limit, path_only, is_path,
}
use student_system_go.Http.{sent}
use student_system_go.Auth
use student_system_go.Auth.{
  Parsed, expired, malformed, refused, not_valid, other_claims, valid, excluded_paths, with_claims,
  with_token, jwt_middleware, middlewares_exclude_paths,
}
use student_system_go.Server.{Request, Ran, Site, Served, apply_middlewares}
use student_system_go.Server.Layers.{
  cors, response_time_middleware, metrics_middleware, record_labels, visit_of, limited,
  rate_limit_layer, jwt_layer, is_origin_allowed, allowed_origins, with_context, checked, reply_ran,
}
use student_system_go.Server.Chain.{
  Env, login_limit, global_limit, sanitized, checked_routes, login_limited, limited_routes,
  measured, secure_mux,
}

-- The path of a request that the JWT check does not pass over.
pub record IsProtected (path : String) : Type 0 where
  pub not_excluded : any (λ p. has_prefix path p) excluded_paths ≡ false
  pub not_session : (same path "/execs/login" || same path "/execs/logout") ≡ false

module _ {C W : Type 0} (parse : String → String → Parsed C) (secret : String) (next : Served C W)
    (r : Request C) where
  abbrev pub inner : Auth.Served C W (Ran C)
  inner a v = let (n, u) = with_context next r a.claims v in (sent 200 n, u)

  with_claims-closed :
      (w : W) (found : Parsed C)
      → ((c : C) → found ≢ valid c)
      → (reply_ran r (with_claims found inner (checked r) w)).1 ≡ w
  with_claims-closed w expired refuses = refl
  with_claims-closed w malformed refuses = refl
  with_claims-closed w refused refuses = refl
  with_claims-closed w not_valid refuses = refl
  with_claims-closed w other_claims refuses = refl
  with_claims-closed w (valid c) refuses = absurd (refuses c refl)

  with_token-closed :
      (w : W) (cookie : Option String)
      → ((token : String) (c : C) → cookie ≡ some token → parse secret token ≢ valid c)
      → (reply_ran r (with_token parse secret cookie inner (checked r) w)).1 ≡ w
  with_token-closed w none refuses = refl
  with_token-closed w (some token) refuses = elim (Bool-cases (same secret "")) [
    | inl unset ↦ rw unset
    | inr set ↦ rw set (with_claims-closed w (parse secret token) (λ c. refuses token c refl))
  ]

  jwt_layer-closed :
      (w : W)
      → IsProtected r.path
      → ((token : String) (c : C) → r.cookie ≡ some token → parse secret token ≢ valid c)
      → (jwt_layer parse secret excluded_paths next r w).1 ≡ w
  unfolding jwt_layer middlewares_exclude_paths jwt_middleware
  jwt_layer-closed w h refuses =
      rw (h.not_excluded, h.not_session) (with_token-closed w r.cookie refuses)

module _ {C S : Type 0} (redis : Counters) (next : Served C (Site redis S)) (r : Request C) where
  -- A request that leaves the state of the routes as it is.
  abbrev Keeps : Served C (Site redis S) → Type 0
  Keeps f = (s : Site redis S) → (f r s).1.app ≡ s.app

  limited-Keeps : (v : Verdict) → Keeps next → Keeps (limited redis v next)
  limited-Keeps fail_open k s = k s
  limited-Keeps (allow h) k s = k s
  limited-Keeps (deny h seconds) k s = refl
  limited-Keeps crash k s = refl

  rate_limit_layer-Keeps :
      (split_host : String → Option String) (l : Limit)
      → Keeps next
      → Keeps (rate_limit_layer redis split_host l next)
  unfolding rate_limit_layer
  rate_limit_layer-Keeps split_host l k s =
      let decided = redis_rate_limit redis l (visit_of split_host l.name r) s.counters in
      limited-Keeps decided.0 k (record s { counters = decided.1 })

  path_only-Keeps :
      (layer : Served C (Site redis S) → Served C (Site redis S)) (paths : List String)
      → Keeps next
      → Keeps (layer next)
      → Keeps (λ q. path_only paths layer q.path next q)
  path_only-Keeps layer paths k k2 s = elim (Bool-cases (is_path r.path paths)) [
    | inl here ↦ rw here (k2 s)
    | inr other ↦ rw other (k s)
  ]

  record_labels-app : (x : Ran C × Site redis S) → (record_labels redis x).1.app ≡ x.1.app
  record_labels-app (n, s) = elim (Bool-cases n.panicked) [
    | inl stopped ↦ rw stopped
    | inr ran ↦ rw ran
  ]

  metrics_middleware-Keeps : Keeps next → Keeps (metrics_middleware redis next)
  unfolding metrics_middleware
  metrics_middleware-Keeps k s = elim (Bool-cases (same r.path "/metrics")) [
    | inl scrape ↦ rw scrape (k s)
    | inr other ↦ rw other (record_labels-app (next r s) ∙ k s)
  ]

  cors-Keeps : Keeps next → Keeps (cors next)
  unfolding cors
  cors-Keeps k s =
      elim (Bool-cases (same r.origin "" || is_origin_allowed r.origin allowed_origins)) [
        | inl allowed ↦ rw allowed (elim (Bool-cases (same r.method "OPTIONS")) [
          | inl preflight ↦ rw preflight
          | inr other ↦ rw other (k s)
        ])
        | inr foreign ↦ rw foreign
      ]

module _ {C S : Type 0} (redis : Counters) (env : Env C) (router : Served C (Site redis S)) where
  -- A request to a path that the JWT check does not pass over, without a token that the parser accepts
  -- under the secret, leaves the state of the routes as it is, whatever the routes do and whatever the
  -- limiters and CORS decide.
  pub secure_mux-closed :
      (r : Request C) (s : Site redis S)
      → IsProtected r.path
      → ((token : String) (c : C) → r.cookie ≡ some token → env.parse env.secret token ≢ valid c)
      → (secure_mux redis env router r s).1.app ≡ s.app
  unfolding secure_mux apply_middlewares response_time_middleware
  secure_mux-closed r s protects refuses =
      let jwt = λ (w : Site redis S).
        ap (λ (v : Site redis S). v.app)
          (jwt_layer-closed env.parse env.secret (sanitized redis env router) r w protects
            refuses) in
      let inside = checked_routes redis env router in
      let login =
        path_only-Keeps redis inside r (rate_limit_layer redis env.split_host login_limit)
          ("/execs/login" ∷ []) jwt
          (rate_limit_layer-Keeps redis inside r env.split_host login_limit jwt) in
      let limits =
        rate_limit_layer-Keeps redis (login_limited redis env router) r env.split_host global_limit
          login in
      let metrics = metrics_middleware-Keeps redis (limited_routes redis env router) r limits in
      cors-Keeps redis (response_time_middleware env.duration (measured redis env router)) r metrics
        s
