-- ===== src/Handlers.antt =====
-- The handlers of internal/api/handlers/students.go, teachers.go and execs.go, written once: the three
-- files differ in the table, the roles and the messages, which the children give.
pub mod Students
pub mod Teachers
pub mod Execs
pub mod Lists
pub mod Access
pub mod Forgets
pub mod Blank
mod Tests
use student_system_go.Common.{
  ℕ, String, Bool, true, false, not, ◌&&◌, Option, none, some, List, [], ◌∷◌, if◌then◌else◌,
}
use student_system_go.Common.Int.{ℤ}
use student_system_go.Common.Text.{same, ◌<>◌, atoi}
use student_system_go.Go.{Result, ok, err, panic, ⊤, Call}
use student_system_go.Reflect.{Field, get_field_names, has_blank_field}
use student_system_go.Reflect.Json.{Json, Update}
use student_system_go.Reflect.Decode.{
  decode_struct, decode_structs, decode_object, decode_objects, decode_ints,
}
use student_system_go.Sql.{Sql, Pool}
use student_system_go.Cache.{Redis, Client, Codec, key_prefix, get_or_fetch, invalidate_pattern}
use student_system_go.Entity.{Entity}
use student_system_go.Repo.{get_by_id, update_row, patch_row, delete_row}
use student_system_go.Repo.Batch.{patch_rows, delete_rows}
use student_system_go.Http.{
  Reply, failed, sent, closed, World, Handler, authorize_user, with_role, fails, sends, require,
  parsed, path_id, call,
}

-- What a handler reads of the request: the role that the context holds, the path's id, the query as it
-- came, and the body, if it is JSON.
pub record Request : Type 0 where
  pub role : Option String
  pub id : String
  pub raw_query : String
  pub body : Option Json

-- What the copies differ in.
pub record Routes : Type 0 where
  pub list_prefix : String
  pub read_id_message : String
  pub write_id_message : String
  pub read_roles : List String
  pub add_roles : List String
  -- PUT and PATCH of one row
  pub edit_roles : List String
  -- DELETE of one row, and the operations on several
  pub admin_roles : List String

abbrev pub invalid_body : String
invalid_body = "Invalid request body"

abbrev pub decoded : {B : Type 0} → (Json → Option B) → Option Json → Option B
decoded f none = none
decoded f (some j) = f j

abbrev is_allowed : String → List String → Bool
is_allowed key [] = false
is_allowed key (name ∷ names) = if same name key then true else is_allowed key names

abbrev only_allowed : List String → Update → Bool
only_allowed names [] = true
only_allowed names ((key, v) ∷ u) = is_allowed key names && only_allowed names u

-- No object of the body has another key than the names of the fields.
abbrev pub all_allowed : List String → List Update → Bool
all_allowed names [] = true
all_allowed names (u ∷ us) = only_allowed names u && all_allowed names us

abbrev pub any_blank : {R : Type 0} → List (Field R) → List R → Bool
unfolding has_blank_field
any_blank fields [] = false
any_blank fields (r ∷ rs) = if has_blank_field fields r then true else any_blank fields rs

abbrev pub list_key : Routes → String → String
list_key routes query = key_prefix <> routes.list_prefix <> query

abbrev pub loaded :
    {db : Sql} {redis : Redis} {A : Type 0} → Result A × Client redis → Handler (World db redis) A
loaded (ok a, c) w = (sent 200 a, record w { client = c })
loaded (err message, c) w = (failed 500 message, record w { client = c })
loaded (panic, c) w = (closed, record w { client = c })

module _ (db : Sql) (redis : Redis) {R : Type 0} (e : Entity R) (routes : Routes) where
  -- `cache.InvalidatePattern(…, cache.KeyPrefix+"students:list:*")`, then the rest
  abbrev pub forget : {A : Type 0} → Handler (World db redis) A → Handler (World db redis) A
  unfolding invalidate_pattern
  forget h w = h (record w {
    client = invalidate_pattern redis (key_prefix <> routes.list_prefix <> "*") w.client;
  })

  -- `GetStudentsHandler`, `load` being the call of the repository, which only reads
  unfoldable pub get_all :
      {A : Type 0} → Codec A → (Pool db → Result A) → Request → Handler (World db redis) A
  unfolding with_role get_or_fetch
  get_all codec load r =
      with_role r.role routes.read_roles λ w.
        loaded (get_or_fetch redis codec (list_key routes r.raw_query) (load w.pool) w.client) w

  -- `GetOneStudentHandler`
  unfoldable pub get_one : Request → Handler (World db redis) R
  unfolding with_role atoi get_by_id
  get_one r =
      with_role r.role routes.read_roles
        (path_id r.id routes.read_id_message λ id. call (get_by_id db e id) (sends 200))

  -- `AddStudentHandler`, `insert` being the call of the repository
  unfoldable pub add :
      (List R → Call (Pool db) (List R)) → Request → Handler (World db redis) (List R)
  unfolding with_role get_field_names has_blank_field decode_objects decode_structs
      invalidate_pattern
  add insert r = with_role r.role routes.add_roles (
      parsed (decoded decode_objects r.body) invalid_body λ raw.
        require (all_allowed (get_field_names e.fields) raw)
          "Invalid field in request body, only use allowed fields"
          (parsed (decoded (decode_structs e.fields e.zero_row) r.body) invalid_body λ rows.
            require (not (any_blank e.fields rows)) "Missing required fields in request body"
              (call (insert rows) λ added. forget (sends 201 added))))

  -- `UpdateStudentHandler`
  unfoldable pub update : Request → Handler (World db redis) R
  unfolding with_role atoi decode_struct update_row invalidate_pattern
  update r = with_role r.role routes.edit_roles (
      path_id r.id routes.write_id_message λ id.
        parsed (decoded (decode_struct e.fields e.zero_row) r.body) invalid_body
          λ new. call (update_row db e id new) λ row. forget (sends 200 row))

  -- `PatchOneStudentHandler`
  unfoldable pub patch_one : Request → Handler (World db redis) R
  unfolding with_role atoi patch_row invalidate_pattern
  patch_one r = with_role r.role routes.edit_roles (
      path_id r.id routes.write_id_message λ id.
        parsed (decoded decode_object r.body) invalid_body
          λ updates. call (patch_row db e id updates) λ row. forget (sends 200 row))

  -- `DeleteOneStudentHandler`; what it writes after the status 204 is not sent
  unfoldable pub delete_one : Request → Handler (World db redis) ⊤
  unfolding with_role atoi delete_row invalidate_pattern
  delete_one r = with_role r.role routes.admin_roles (
      path_id r.id routes.write_id_message
        λ id. call (delete_row db e id) λ done. forget (sends 204 tt))

  -- `PatchStudentsHandler`
  unfoldable pub patch_all : Request → Handler (World db redis) ⊤
  unfolding with_role decode_objects patch_rows invalidate_pattern
  patch_all r = with_role r.role routes.admin_roles (
      parsed (decoded decode_objects r.body) invalid_body
        λ updates. call (patch_rows db e updates) λ done. forget (sends 204 tt))

  -- `DeleteStudentsHandler`
  unfoldable pub delete_all : Request → Handler (World db redis) (List ℤ)
  unfolding with_role decode_ints delete_rows invalidate_pattern
  delete_all r = with_role r.role routes.admin_roles (
      parsed (decoded decode_ints r.body) invalid_body
        λ ids. call (delete_rows db e ids) λ deleted. forget (sends 200 deleted))
