-- ===== src/Login/Session.antt =====
-- From the login to the handlers: what the token of a login lets its bearer do.
use student_system_go.Common.{
  ◌≡◌, sym, ap, ◌∙◌, inl, inr, String, Bool, true, false, ◌||◌, Option, none, some, List, any,
  if◌then◌else◌, Bool-cases, eq_iff, ◌≢◌,
}
use student_system_go.Common.Text.{same, has_prefix}
use student_system_go.Go.{ok}
use student_system_go.Reflect.Json.{Json}
use student_system_go.Models.{Exec}
use student_system_go.Passwords.{Argon2}
use student_system_go.Sql.{Sql, Pool}
use student_system_go.Http.{failed, sent, Handler, with_role}
use student_system_go.Auth.{
  valid, Request, with_claims, with_token, jwt_middleware, middlewares_exclude_paths,
}
use student_system_go.Auth.Authenticated.{guarded}
use student_system_go.SignToken.{
  Claims, Jwt, JwtEnv, lifetime, claims_for, signed, sign_for, sign_token,
}
use student_system_go.Login.{LoggedIn, login_handler}
use student_system_go.Login.Admits.{
  LoginEnds-Admitted, LoginEnds-bearer, Admitted, login_handler-LoginEnds,
}

-- What golang-jwt documents: a token that was signed with a secret parses under it, to the claims that
-- were signed, while its time is not over.
pub record IsJwt (jwt : Jwt) : Type 0 where
  pub is_current : jwt.E → Bool
  pub parse_signed :
      (secret token : String) (c : Claims jwt.E)
      → jwt.sign secret c ≡ some token
      → is_current c.exp ≡ true
      → jwt.parse secret token ≡ valid c

abbrev pub claims_role : {E : Type 0} → Claims E → Option String
claims_role c = some c.role

module _ {jwt : Jwt} (laws : IsJwt jwt) (env : JwtEnv) where
  -- The token that SignToken returns parses to the name and the role that it was given.
  sign_token-parses :
      (user : Exec) (token : String) (d : jwt.D)
      → lifetime jwt env ≡ some d
      → laws.is_current (jwt.expiry d) ≡ true
      → sign_token jwt env user.id user.username user.role ≡ ok token
      → jwt.parse env.secret token ≡ valid (claims_for jwt env user.id user.username user.role d)
  unfolding sign_token
  sign_token-parses user token d lasts current signs =
      laws.parse_signed env.secret token (claims_for jwt env user.id user.username user.role d)
        (unsigned _ token
          (sym (ap (sign_for jwt env user.id user.username user.role) lasts) ∙ signs))
        current
    where
      unsigned : (o : Option String) (t : String) → signed jwt env o ≡ ok t → o ≡ some t
      unsigned none t h = cc
      unsigned (some u) t h = cc

  -- A request whose cookie is a token that parses reaches the handler with the claims of the token.
  chain-parsed :
      {W A : Type 0} (paths roles : List String) (h : Handler W A) (r : Request (Claims jwt.E))
      (w : W) (token : String) (c : Claims jwt.E)
      → env.secret ≢ ""
      → r.cookie ≡ some token
      → jwt.parse env.secret token ≡ valid c
      → any (λ path. has_prefix r.path path) paths ≡ false
      → (same r.path "/execs/login" || same r.path "/execs/logout") ≡ false
      → middlewares_exclude_paths
          (jwt_middleware jwt.parse env.secret)
          paths
          (guarded jwt.parse claims_role env.secret roles h)
          r
          w
        ≡ with_role (some c.role) roles h w
  unfolding middlewares_exclude_paths jwt_middleware with_role
  chain-parsed {W} {A} paths roles h r w token c secret cookie parses checked not_login =
      ap (λ b. if b then next r w else jwt_middleware jwt.parse env.secret next r w) checked
      ∙ ap (λ b. if b then next r w else with_token jwt.parse env.secret r.cookie next r w)
          not_login
      ∙ ap (λ o. with_token jwt.parse env.secret o next r w) cookie
      ∙ ap
          (λ b.
            if b
            then (failed 500 "Server configuration error", w)
            else with_claims (jwt.parse env.secret token) next r w)
          is_set
      ∙ ap (λ x. with_claims x next r w) parses
    where
      next : Request (Claims jwt.E) → Handler W A
      next = guarded jwt.parse claims_role env.secret roles h

      is_set : same env.secret "" ≡ false
      is_set = elim (Bool-cases (same env.secret "")) [
        | inl empty ↦ absurd (secret ((eq_iff env.secret "").0 empty))
        | inr given ↦ given
      ]

  -- The token of a login carries its user's role: while the token's time is not over, a request that
  -- shows it and is not for an excluded path is treated by a handler behind the JWT check as one of the
  -- role that the user's row had at the login. The secret must be set, and the user was active.
  pub login_handler-middlewares_exclude_paths :
      {W A : Type 0} (db : Sql) (argon2 : Argon2) (body : Option Json) (p q : Pool db)
      (l : LoggedIn) (d : jwt.D) (paths roles : List String) (h : Handler W A)
      (r : Request (Claims jwt.E)) (w : W)
      → login_handler db argon2 jwt env body p ≡ (sent 200 l, q)
      → lifetime jwt env ≡ some d
      → laws.is_current (jwt.expiry d) ≡ true
      → env.secret ≢ ""
      → r.cookie ≡ some l.bearer
      → any (λ path. has_prefix r.path path) paths ≡ false
      → (same r.path "/execs/login" || same r.path "/execs/logout") ≡ false
      → (a : Admitted db argon2 jwt env body p l.token) × (middlewares_exclude_paths
            (jwt_middleware jwt.parse env.secret)
            paths
            (guarded jwt.parse claims_role env.secret roles h)
            r
            w
          ≡ with_role (some a.user.role) roles h w)
  login_handler-middlewares_exclude_paths db argon2 body p q l d paths roles h r w login lasts
        current secret cookie checked not_login =
      let ends = login_handler-LoginEnds db argon2 jwt env body p in
      let a =
        LoginEnds-Admitted db argon2 jwt env body p q l (login_handler db argon2 jwt env body p)
          ends login in
      let one =
        LoginEnds-bearer db argon2 jwt env body p q l (login_handler db argon2 jwt env body p) ends
          login in
      (
        a,
        chain-parsed paths roles h r w l.token
            (claims_for jwt env a.user.id a.user.username a.user.role d) secret
            (cookie ∙ ap some one) (sign_token-parses a.user l.token d lasts current a.signs)
            checked not_login,
      )
