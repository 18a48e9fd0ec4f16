-- ===== src/Handlers/Tests.antt =====
-- The theorems on the handlers at concrete requests.
use student_system_go.Common.{if◌then◌else◌}
use student_system_go.Common.{◌≡◌, ◌≢◌, refl, String, true, none, some, [], ◌∷◌}
use student_system_go.Common.Int.{pos, ◌==ℤ◌}
use student_system_go.Common.Text.{trim_suffix}
use student_system_go.Go.{Result, ok}
use student_system_go.Models.{Student}
use student_system_go.Reflect.Json.{Json, nil, cons, end, member}
use student_system_go.Reflect.Decode.{
  equal_fold, field_where, field_for, decode_slot, decode_members, decode_struct, decode_items,
  decode_structs,
}
use student_system_go.Sql.{Pool}
use student_system_go.Sql.Memory.{memory}
use student_system_go.Cache.{Codec, Client}
use student_system_go.Cache.Coherent.{is_plain}
use student_system_go.Cache.Memory.{one_slot, one_slot-IsRedis}
use student_system_go.Entity.Students.{student_entity}
use student_system_go.Repo.{add_rows}
use student_system_go.Http.{sent, World, authorize_user}
use student_system_go.Handlers.{Request, decoded, get_all, add, delete_one}
use student_system_go.Handlers.Students.{student_routes}
use student_system_go.Handlers.Access.{AllGuarded, handlers-AllGuarded}
use student_system_go.Handlers.Forgets.{
  AllForget, deleted, handlers-AllForget, list_reply, get_all-after,
}
use student_system_go.Handlers.Blank.{students, entity_of, routes_of, add-refused}

abbrev ada : Student
ada = record {
  id = pos 0;
  first_name = "Ada";
  last_name = "Byron";
  email = "ada@x.org";
  class = "10A";
  photo_s3_key = "";
}

abbrev ada_json : Json
ada_json = Json.arr (
    cons
      (Json.obj (
        member "first_name" (Json.str "Ada") (
          member "last_name" (Json.str "Byron")
            (member "email" (Json.str "ada@x.org") (member "class" (Json.str "10A") end)))))
      nil)

abbrev request : Request
request = record { role = some "admin"; id = "1"; raw_query = ""; body = some ada_json }

-- A list that a client has cached.
abbrev stale : Client one_slot
stale = record { ready = true; store = some ("cache:students:list:", "stale") }

abbrev world : World memory one_slot
world = record {
  pool = record {
    ready = true;
    read_ready = true;
    server = record { rows = λ j. none; tx = none; up = true };
  };
  client = stale;
}

-- A list with the total that is not in its JSON.
abbrev half_codec : Codec (String × String)
half_codec = record {
  marshal = λ v. ok v.0;
  unmarshal = λ t v. (ok tt, (t, v.1));
  zero_value = ("", "");
}

abbrev load : Pool memory → Result (String × String)
load p = ok ("fresh", "2")

handlers-AllGuarded_example :
    AllGuarded memory one_slot student_entity student_routes half_codec load
      (add_rows memory student_entity)
      request
      world
handlers-AllGuarded_example =
    handlers-AllGuarded memory one_slot student_entity student_routes half_codec load
      (add_rows memory student_entity) request world

handlers-AllForget_example :
    AllForget memory one_slot student_entity student_routes
      (add_rows memory student_entity)
      request
      world
handlers-AllForget_example =
    handlers-AllForget memory one_slot student_entity student_routes
      (add_rows memory student_entity) request world

-- The row is deleted while a client has cached the list.
abbrev before_write : World memory one_slot
before_write = record world {
  pool = record {
    ready = true;
    read_ready = true;
    server = record { rows = λ j. if j ==ℤ pos 1 then some ada else none; tx = none; up = true };
  };
}

abbrev after_write : World memory one_slot
after_write = (delete_one memory one_slot student_entity student_routes request before_write).1

write_runs :
    delete_one memory one_slot student_entity student_routes request before_write
    ≡ (sent 204 tt, after_write)
unfolding delete_one
write_runs = refl

may_read : authorize_user "admin" student_routes.read_roles ≡ true
unfolding authorize_user
may_read = refl

plain : is_plain "cache:students:list:" ≡ true
unfolding is_plain
plain = refl

get_all-after_example :
    (get_all memory one_slot student_entity student_routes half_codec load request after_write).0
    ≡ list_reply (ok ("fresh", ""))
get_all-after_example =
    get_all-after one_slot-IsRedis student_routes student_entity half_codec load
      (add_rows memory student_entity) request "admin" (ok ("fresh", ""))
      ("cache:students:list:" ∷ []) before_write after_write (deleted request 204 write_runs)
      ("fresh", ("fresh", ""), refl, refl, refl) refl may_read refl refl plain (λ j among t h. cc)

ada_decodes :
    decoded (decode_structs student_entity.fields student_entity.zero_row) request.body
    ≡ some (ada ∷ [])
unfolding decode_structs decode_items decode_struct decode_members decode_slot field_for field_where
    equal_fold trim_suffix
ada_decodes = refl

add-refused_example :
    add memory one_slot
      (entity_of students)
      (routes_of students)
      (add_rows memory student_entity)
      request
      world
    ≢ (sent 201 (ada ∷ []), world)
add-refused_example =
    add-refused memory one_slot students (add_rows memory student_entity) request ada [] world world
      201 (ada ∷ []) ada_decodes
