-- ===== src/Server/Sanitizing.antt =====
-- `XSSMiddleware` of internal/api/middlewares/sanitize.go and `Hpp` of hpp.go.
use student_system_go.Common.{String, ◌&&◌, Option, none, some, List, [], ◌∷◌, ◌++◌, if◌then◌else◌}
use student_system_go.Common.Text.{same, ◌<>◌, contains, trim_space}
use student_system_go.Reflect.Json.{Json, null, bool, num, str, arr, obj}
use student_system_go.Sanitize.{clean}
use student_system_go.Query.{Params, values_of}
use student_system_go.Hpp.{entries, keys_of, filter_query_params}
use student_system_go.Server.{http_error, Request, Ran, Served, answers}

-- The map that the loop over the parameters fills. A later key that is sanitized to the same text takes the
-- place of an earlier one; the source goes through a map, in an order that Go leaves open.
abbrev pub without_key : String → Params → Params
without_key k [] = []
without_key k ((j, v) ∷ ps) =
    let rest = without_key k ps in if same k j then rest else (j, v) ∷ rest

abbrev pub sanitize_all : (String → String) → List String → List String
sanitize_all sanitize [] = []
sanitize_all sanitize (v ∷ vs) = sanitize v ∷ sanitize_all sanitize vs

abbrev pub sanitize_keys :
    (String → String) → (String → List String) → List String → Params → Params
sanitize_keys sanitize query [] filled = filled
sanitize_keys sanitize query (k ∷ ks) filled =
    sanitize_keys sanitize query ks
      (without_key (sanitize k) filled ++ entries (sanitize k) (sanitize_all sanitize (query k)))

abbrev pub sanitize_query : (String → String) → Params → Params
sanitize_query sanitize ps = sanitize_keys sanitize (λ k. values_of k ps) (keys_of ps) []

-- `%T` of a value that `clean` refuses.
abbrev pub type_name : Json → String
type_name null = "<nil>"
type_name (bool b) = "bool"
type_name (num n) = "float64"
type_name (str s) = "string"
type_name (arr vs) = "[]interface {}"
type_name (obj ms) = "map[string]interface {}"

-- `encoding/json`: to decode a text into an `interface{}`, and to encode one.
pub record JsonCodec : Type 0 where
  pub decode : String → Option Json
  pub encode : Json → Option String

abbrev pub clean_url : {C : Type 0} → (String → String) → Request C → Request C
clean_url sanitize r = record r { path = sanitize r.path; query = sanitize_query sanitize r.query }

module _ {C W : Type 0} (codec : JsonCodec) (sanitize : String → String) where
  abbrev pub encoded_body : Served C W → Request C → Option String → W → Ran C × W
  encoded_body next r none w = (answers r (http_error 400 "Error sanitizing body"), w)
  encoded_body next r (some text) w = next (record r { body = some text }) w

  abbrev pub cleaned_body : Served C W → Request C → Json → Option Json → W → Ran C × W
  cleaned_body next r j none w =
      (answers r (http_error 400 ("Unssuoprted data: " <> type_name j)), w)
  cleaned_body next r j (some cleaned) w = encoded_body next r (codec.encode cleaned) w

  abbrev pub decoded_body : Served C W → Request C → Option Json → W → Ran C × W
  unfolding clean
  decoded_body next r none w = (answers r (http_error 400 "Inalid json request body"), w)
  decoded_body next r (some j) w = cleaned_body next r j (clean sanitize j) w

  abbrev pub sanitize_body : Served C W → Request C → Option String → W → Ran C × W
  unfolding clean trim_space
  sanitize_body next r none w = (answers r (http_error 400 "Error reading request body"), w)
  sanitize_body next r (some text) w =
      let trimmed = record r { body = some (trim_space text) } in
      if same (trim_space text) ""
      then next trimmed w
      else decoded_body next trimmed (codec.decode (trim_space text)) w

  -- `XSSMiddleware`
  unfoldable pub xss_middleware : Served C W → Served C W
  unfolding clean trim_space
  xss_middleware next r w =
      if same r.content_type "application/json"
      then sanitize_body next (clean_url sanitize r) r.body w
      else if same r.content_type ""
      then next (clean_url sanitize r) w
      else (
        answers (clean_url sanitize r)
            (http_error 415 "Unsupported Content-Type. Please use application/json."),
        w,
      )

-- `ParseForm` of a POST with a form as its body reads the body; `parse` is what it makes of the text.
abbrev pub form_of : (String → Option Params) → Option String → Params → Option Params
form_of parse none query = none
form_of parse (some text) query = elim (parse text) [ none ↦ none | some ps ↦ some (ps ++ query) ]

-- `filterBodyParams`
abbrev pub filter_body_params :
    {C : Type 0} → (String → Option Params) → List String → Request C → Request C
unfolding filter_query_params
filter_body_params parse whitelist r = elim (form_of parse r.body r.query) [
  | none ↦ record r { body = some "" }
  | some form ↦ record r { body = some ""; form = filter_query_params whitelist form }
]

-- `Hpp` with the options of `main`: it checks the form of a POST, and the query.
unfoldable pub hpp :
    {C W : Type 0} → (String → Option Params) → List String → Served C W → Served C W
unfolding filter_query_params contains
hpp parse whitelist next r w =
    let filtered =
      if same r.method "POST" && contains r.content_type "application/x-www-form-urlencoded"
      then filter_body_params parse whitelist r
      else r in
    next (record filtered { query = filter_query_params whitelist filtered.query }) w
