-- ===== src/Hpp.antt =====
-- `filterQueryParams` of internal/api/middlewares/hpp.go, through which the URL of every request goes
-- before a handler reads it, with the options of cmd/api/server.go.
pub mod Once
pub mod Pages
mod Tests
use student_system_go.Common.{
  ℕ, String, Bool, true, false, ◌||◌, not, List, [], ◌∷◌, ◌++◌, length, ltb, if◌then◌else◌,
}
use student_system_go.Common.Text.{same}
use student_system_go.Query.{Params, values_of, first_of}

-- `isWhiteListedParam`
abbrev pub is_white_listed_param : String → List String → Bool
is_white_listed_param param [] = false
is_white_listed_param param (v ∷ whitelist) = same v param || is_white_listed_param param whitelist

-- `Whitelist` of the options in `main`
abbrev pub main_whitelist : List String
main_whitelist =
    "sortby" ∷ "sortOrder" ∷ "name" ∷ "age" ∷ "class" ∷ "first_name" ∷ "last_name" ∷ "subject" ∷ []

-- The keys of the map `r.URL.Query()`, each once.
abbrev pub without : String → List String → List String
without k [] = []
without k (j ∷ ks) = let rest = without k ks in if same k j then rest else j ∷ rest

abbrev pub keys_of : Params → List String
keys_of [] = []
keys_of ((k, v) ∷ ps) = k ∷ without k (keys_of ps)

-- One round of the loop: what becomes of the values `v` of the key `k`.
abbrev pub filter_values : List String → String → List String → List String
filter_values whitelist k v =
    let single = if ltb 1 (length v) then first_of v ∷ [] else v in
    if not (is_white_listed_param k whitelist) then [] else single

abbrev pub entries : String → List String → Params
entries k [] = []
entries k (v ∷ vs) = (k, v) ∷ entries k vs

-- The loop over the keys, and `Encode`.
abbrev pub filter_keys : List String → (String → List String) → List String → Params
filter_keys whitelist query [] = []
filter_keys whitelist query (k ∷ ks) =
    entries k (filter_values whitelist k (query k)) ++ filter_keys whitelist query ks

-- `filterQueryParams`
unfoldable pub filter_query_params : List String → Params → Params
filter_query_params whitelist ps = filter_keys whitelist (λ k. values_of k ps) (keys_of ps)
