-- ===== src/Auth/Authenticated.antt =====
-- No one acts without a token: what stands between a request and a handler that checks a role.
use mathlib.Core.Bool.{false≢true}
use student_system_go.Common.{
  ◌≡◌, ◌≢◌, refl, sym, ap, ◌∙◌, ◌⊎◌, inl, inr, String, true, ◌||◌, Option, none, some, List, any,
  Bool-cases, eq_iff,
}
use student_system_go.Common.Text.{same, has_prefix}
use student_system_go.Http.{Reply, failed, Handler, authorize_user, with_role}
use student_system_go.Auth.{
  Parsed, expired, malformed, refused, not_valid, other_claims, valid, Request, Served, with_claims,
  with_token, jwt_middleware, middlewares_exclude_paths, role_in,
}

module _ {C W A : Type 0} (parse : String → String → Parsed C) (role : C → Option String)
    (secret : String) (roles : List String) (h : Handler W A) where
  -- A handler behind the check: it asks for a role before it does anything else.
  abbrev pub guarded : Served C W A
  unfolding with_role
  guarded r w = with_role (role_in role r.claims) roles h w

  -- A refusal that changed nothing, or the handler's answer for a token that the parser accepts under
  -- the secret, which is set, with a role of the list.
  pub data Authenticated (r : Request C) (w : W) : Reply A × W → Type 0 where
    turned_away :
        (message : String) {x : Reply A × W}
        → (x ≡ (failed 401 message, w))
          ⊎ ((x ≡ (failed 403 message, w)) ⊎ (x ≡ (failed 500 message, w)))
        → Authenticated r w x
    acted :
        (token : String) (c : C) (name : String)
        → secret ≢ ""
        → r.cookie ≡ some token
        → parse secret token ≡ valid c
        → role c ≡ some name
        → authorize_user name roles ≡ true
        → Authenticated r w (h w)

  without_claims : (r : Request C) (w : W) → r.claims ≡ none → Authenticated r w (guarded r w)
  unfolding with_role
  without_claims r w fresh =
      turned_away "missing role in context"
        (inl (ap (λ c. with_role (role_in role c) roles h w) fresh))

  with_role-Authenticated :
      (r : Request C) (w : W) (token : String) (c : C) (name : Option String)
      → secret ≢ ""
      → r.cookie ≡ some token
      → parse secret token ≡ valid c
      → role c ≡ name
      → Authenticated r w (with_role name roles h w)
  unfolding with_role
  with_role-Authenticated r w token c none set cookie parsed named = turned_away _ (inl refl)
  with_role-Authenticated r w token c (some name) set cookie parsed named =
      elim (Bool-cases (authorize_user name roles)) [
        | inl allowed ↦ rw allowed (acted token c name set cookie parsed named allowed)
        | inr other ↦ rw other (turned_away _ (inr (inl refl)))
      ]

  with_claims-Authenticated :
      (r : Request C) (w : W) (token : String) (found : Parsed C)
      → secret ≢ ""
      → r.cookie ≡ some token
      → parse secret token ≡ found
      → Authenticated r w (with_claims found guarded r w)
  unfolding with_role
  with_claims-Authenticated r w token expired set cookie parsed = turned_away _ (inl refl)
  with_claims-Authenticated r w token malformed set cookie parsed = turned_away _ (inl refl)
  with_claims-Authenticated r w token refused set cookie parsed = turned_away _ (inl refl)
  with_claims-Authenticated r w token not_valid set cookie parsed = turned_away _ (inl refl)
  with_claims-Authenticated r w token other_claims set cookie parsed = turned_away _ (inl refl)
  with_claims-Authenticated r w token (valid c) set cookie parsed =
      with_role-Authenticated r w token c (role c) set cookie parsed refl

  with_token-Authenticated :
      (r : Request C) (w : W) (cookie : Option String)
      → r.cookie ≡ cookie
      → Authenticated r w (with_token parse secret cookie guarded r w)
  unfolding with_role
  with_token-Authenticated r w none held = turned_away _ (inl refl)
  with_token-Authenticated r w (some token) held = elim (Bool-cases (same secret "")) [
    | inl unset ↦ rw unset (turned_away _ (inr (inr refl)))
    | inr is_set ↦ rw is_set (
        with_claims-Authenticated r w token (parse secret token)
          (λ e. absurd (false≢true (sym is_set ∙ (eq_iff secret "").1 e))) held refl)
  ]

  jwt_middleware-Authenticated :
      (r : Request C) (w : W)
      → r.claims ≡ none
      → Authenticated r w (jwt_middleware parse secret guarded r w)
  unfolding jwt_middleware with_role
  jwt_middleware-Authenticated r w fresh =
      elim (Bool-cases (same r.path "/execs/login" || same r.path "/execs/logout")) [
        | inl open_path ↦ rw open_path (without_claims r w fresh)
        | inr other ↦ rw other (with_token-Authenticated r w r.cookie refl)
      ]

  -- Behind JWTMiddleware and the paths excluded from it, whatever these are, a handler that checks a
  -- role acts only for a request whose cookie is a token that jwt.Parse accepts under the secret,
  -- which is not empty, and whose role is of the list; every other request gets 401, 403 or 500 and
  -- changes nothing. The request comes without claims in its context.
  pub middlewares-Authenticated :
      (paths : List String) (r : Request C) (w : W)
      → r.claims ≡ none
      → Authenticated r w
          (middlewares_exclude_paths (jwt_middleware parse secret) paths guarded r w)
  unfolding middlewares_exclude_paths with_role
  middlewares-Authenticated paths r w fresh =
      elim (Bool-cases (any (λ path. has_prefix r.path path) paths)) [
        | inl excluded ↦ rw excluded (without_claims r w fresh)
        | inr checked ↦ rw checked (jwt_middleware-Authenticated r w fresh)
      ]
