-- ===== src/Http/Sent.antt =====
-- What a request has passed when a handler answers with success.
use student_system_go.Common.{
  ℕ, ◌≡◌, refl, String, Bool, true, false, Option, none, some, List, inl, inr, Bool-cases,
}
use student_system_go.Http.{
  failed, sent, Handler, authorize_user, with_role, parsed, require, answered,
}
use student_system_go.Go.{Result, ok, err, panic}

module _ {W A : Type 0} {status : ℕ} {a : A} {v : W} where
  pub with_role-sent :
      (role : Option String) (roles : List String) (h : Handler W A) (w : W)
      → with_role role roles h w ≡ (sent status a, v)
      → (r : String) × (role ≡ some r)
        × (authorize_user r roles ≡ true)
        × (h w ≡ (sent status a, v))
  unfolding with_role
  with_role-sent none roles h w e = cc
  with_role-sent (some role) roles h w e = elim (Bool-cases (authorize_user role roles)) [
    | inl may ↦ (role, refl, may, rw may at e)
    | inr may_not ↦ cc (rw may_not at e)
  ]

  pub parsed-sent :
      {B : Type 0} (o : Option B) (message : String) (h : B → Handler W A) (w : W)
      → parsed o message h w ≡ (sent status a, v)
      → (b : B) × (o ≡ some b) × (h b w ≡ (sent status a, v))
  parsed-sent none message h w e = cc
  parsed-sent (some b) message h w e = (b, refl, e)

  pub require-sent :
      (b : Bool) (message : String) (h : Handler W A) (w : W)
      → require b message h w ≡ (sent status a, v)
      → (b ≡ true) × (h w ≡ (sent status a, v))
  require-sent true message h w e = (refl, e)
  require-sent false message h w e = cc

  pub answered-sent :
      {B : Type 0} (x : Result B) (message : String) (h : B → Handler W A) (w : W)
      → answered (x, w) message h ≡ (sent status a, v)
      → (b : B) × (x ≡ ok b) × (h b w ≡ (sent status a, v))
  answered-sent (ok b) message h w q = (b, refl, q)
  answered-sent (err cause) message h w q = cc
  answered-sent panic message h w q = cc

module _ {W A : Type 0} (roles : List String) (h : Handler W A) (role : String) (w : W) where
  pub with_role-may : authorize_user role roles ≡ true → with_role (some role) roles h w ≡ h w
  unfolding with_role
  with_role-may may = rw may

  pub with_role-may_not :
      authorize_user role roles ≡ false
      → with_role (some role) roles h w ≡ (failed 403 "user not authorised", w)
  unfolding with_role
  with_role-may_not may_not = rw may_not
