-- ===== src/Http.antt =====
-- What a handler answers, and the checks that the handlers of internal/api/handlers begin with.
pub mod Sent
use student_system_go.Common.{
  ℕ, String, Bool, true, false, Option, none, some, List, [], ◌∷◌, if◌then◌else◌,
}
use student_system_go.Common.Int.{ℤ, not_positive}
use student_system_go.Common.Text.{same, atoi}
use student_system_go.Go.{Result, ok, err, panic, Call}
use student_system_go.Sql.{Sql, Pool}
use student_system_go.Cache.{Redis, Client}

-- `http.Error`, or a status with what is encoded as the body; after a panic `net/http` closes the
-- connection.
pub data Reply (A : Type 0) : Type 0 where
  failed : ℕ → String → Reply A
  sent : ℕ → A → Reply A
  closed : Reply A

-- What the handlers share: the pools and the Redis client.
pub record World (db : Sql) (redis : Redis) : Type 0 where
  pub pool : Pool db
  pub client : Client redis

abbrev pub Handler : Type 0 → Type 0 → Type 0
Handler W A = W → Reply A × W

-- `AuthorizeUser` of pkg/utils/authorize_user.go: true where it returns no error.
unfoldable pub authorize_user : String → List String → Bool
authorize_user role [] = false
authorize_user role (allowed ∷ roles) =
    if same role allowed then true else authorize_user role roles

abbrev pub at_least_one : Option ℤ → Option ℤ
at_least_one none = none
at_least_one (some id) = if not_positive id then none else some id

module _ {W A : Type 0} where
  abbrev pub fails : ℕ → String → Handler W A
  fails status message w = (failed status message, w)

  abbrev pub sends : ℕ → A → Handler W A
  sends status a w = (sent status a, w)

  -- The role that the JWT middleware has put into the context, if any.
  unfoldable pub with_role : Option String → List String → Handler W A → Handler W A
  unfolding authorize_user
  with_role none roles h w = (failed 401 "missing role in context", w)
  with_role (some role) roles h w =
      if authorize_user role roles then h w else (failed 403 "user not authorised", w)

  -- A value that was parsed from the request.
  abbrev pub parsed : {B : Type 0} → Option B → String → (B → Handler W A) → Handler W A
  parsed none message h w = (failed 400 message, w)
  parsed (some b) message h w = h b w

  -- A condition on the request.
  abbrev pub require : Bool → String → Handler W A → Handler W A
  require true message h w = h w
  require false message h w = (failed 400 message, w)

  -- `r.PathValue("id")`
  abbrev pub path_id : String → String → (ℤ → Handler W A) → Handler W A
  unfolding atoi
  path_id id_text message h w = parsed (atoi id_text) message h w

  -- `err != nil || id <= 0`
  abbrev pub positive_id : String → String → (ℤ → Handler W A) → Handler W A
  unfolding atoi
  positive_id id_text message h w = parsed (at_least_one (atoi id_text)) message h w

-- A call whose error is answered with 500 and a message of the handler.
abbrev pub answered : {W A B : Type 0} → Result B × W → String → (B → Handler W A) → Reply A × W
answered (ok b, w) message h = h b w
answered (err cause, w) message h = (failed 500 message, w)
answered (panic, w) message h = (closed, w)

module _ {db : Sql} {redis : Redis} {A B : Type 0} where
  abbrev pub called : Result B → (B → Handler (World db redis) A) → Handler (World db redis) A
  called (ok b) h w = h b w
  called (err message) h w = (failed 500 message, w)
  called panic h w = (closed, w)

  -- A call of the repository; its error is the answer.
  abbrev pub call : Call (Pool db) B → (B → Handler (World db redis) A) → Handler (World db redis) A
  call f h w = let (r, p) = f w.pool in called r h (record w { pool = p })
