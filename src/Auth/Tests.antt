-- ===== src/Auth/Tests.antt =====
-- Runs of the check.
use student_system_go.Common.{ℕ, suc, ◌≡◌, refl, String, none, some, [], ◌∷◌, if◌then◌else◌}
use student_system_go.Common.Text.{same, has_prefix}
use student_system_go.Http.{failed, sent, Handler, with_role, authorize_user}
use student_system_go.Auth.{
  Parsed, refused, valid, Request, Served, jwt_middleware, middlewares_exclude_paths,
  excluded_paths,
}
use student_system_go.Auth.Authenticated.{guarded, Authenticated, middlewares-Authenticated}

-- A token that is the secret followed by a role; its claims are the role.
abbrev parse : String → String → Parsed String
parse secret token = if same token "s:admin" then valid "admin" else refused

-- A handler that counts its runs.
abbrev counting : Handler ℕ String
counting n = (sent 200 "done", suc n)

abbrev chain : Served String ℕ String
unfolding with_role middlewares_exclude_paths jwt_middleware
chain =
    middlewares_exclude_paths (jwt_middleware parse "s") excluded_paths
      (guarded parse some "s" ("admin" ∷ []) counting)

abbrev from_admin : Request String
from_admin = record { path = "/students"; cookie = some "s:admin"; claims = none }

-- The excluded paths are prefixes: this one skips the check too, and the role is missing.
chain_tests :
    (chain from_admin 0 ≡ (sent 200 "done", 1))
    × (chain (record { path = "/students"; cookie = some "s:exec"; claims = none }) 0
        ≡ (failed 401 "Invalid token", 0))
    × (chain (record { path = "/metricsX"; cookie = some "s:admin"; claims = none }) 0
        ≡ (failed 401 "missing role in context", 0))
unfolding with_role authorize_user middlewares_exclude_paths jwt_middleware has_prefix
chain_tests = (refl, refl, refl)

middlewares-Authenticated_example :
    Authenticated parse some "s" ("admin" ∷ []) counting from_admin 0 (
      middlewares_exclude_paths
        (jwt_middleware parse "s")
        excluded_paths
        (guarded parse some "s" ("admin" ∷ []) counting)
        from_admin
        0)
middlewares-Authenticated_example =
    middlewares-Authenticated parse some "s" ("admin" ∷ []) counting excluded_paths from_admin 0
      refl
