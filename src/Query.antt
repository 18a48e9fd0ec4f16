-- ===== src/Query.antt =====
-- `AddFilters` and `AddSorting` of pkg/utils/database_utils.go: what a list request adds to its query.
-- `getPaginationParams` of internal/api/handlers/students.go: the page that it asks for.
pub mod Safe
mod Tests
use student_system_go.Common.{
  ℕ, zero, suc, String, Bool, true, false, ◌&&◌, ◌||◌, not, Option, none, some, List, [], ◌∷◌, ◌++◌,
  ◌==◌, if◌then◌else◌,
}
use student_system_go.Common.Int.{ℤ, pos}
use student_system_go.Common.Text.{same, ◌<>◌, split, atoi}
use student_system_go.Reflect.{Value, text}

-- `r.URL.Query()`: the parameters of the URL in order.
abbrev pub Params : Type 0
Params = List (String × String)

-- `Query()[name]`
abbrev pub values_of : String → Params → List String
values_of name [] = []
values_of name ((k, v) ∷ ps) =
    let rest = values_of name ps in if same k name then v ∷ rest else rest

abbrev pub first_of : List String → String
first_of [] = ""
first_of (v ∷ vs) = v

-- `Query().Get(name)`
abbrev pub get_param : Params → String → String
get_param ps name = first_of (values_of name ps)

-- `isValidSortOrder`
abbrev pub is_valid_sort_order : String → Bool
is_valid_sort_order order = same order "asc" || same order "desc"

-- `isValidSortField`
abbrev pub is_valid_sort_field : String → Bool
is_valid_sort_field field =
    same field "first_name"
    || same field "last_name"
    || same field "email"
    || same field "class"
    || same field "subject"

-- One sort parameter, the `i`-th: what is appended.
abbrev pub comma : ℕ → String
comma i = if i == 0 then "" else ","

abbrev pub sort_parts : ℕ → List String → String
sort_parts i (field ∷ order ∷ []) =
    if not (is_valid_sort_order order) || not (is_valid_sort_field field)
    then ""
    else comma i <> " " <> field <> " " <> order
sort_parts i _ = ""

abbrev pub sort_loop : ℕ → List String → String → String
unfolding split
sort_loop i [] query = query
sort_loop i (param ∷ params) query =
    sort_loop (suc i) params (query <> sort_parts i (split b':' param))

abbrev sorted : List String → String → String
unfolding sort_loop
sorted [] query = query
sorted params query = sort_loop 0 params (query <> " ORDER BY ")

-- `AddSorting`
unfoldable pub add_sorting : Params → String → String
unfolding sorted
add_sorting ps query = sorted (values_of "sortby" ps) query

-- The keys of the map `params`, which are the columns too.
abbrev pub filter_columns : List String
filter_columns = "first_name" ∷ "last_name" ∷ "email" ∷ "class" ∷ "subject" ∷ []

-- `AddFilters`, over the columns in the order in which `range` visits the map, which Go leaves open.
unfoldable pub add_filters : List String → Params → String → List Value → String × List Value
add_filters [] ps query args = (query, args)
add_filters (column ∷ columns) ps query args =
    let value = get_param ps column in
    let kept =
      add_filters columns ps (query <> " AND " <> column <> " = ?") (args ++ text value ∷ []) in
    let skipped = add_filters columns ps query args in if same value "" then skipped else kept

abbrev or_default : ℤ → Option ℤ → ℤ
or_default default none = default
or_default default (some n) = n

-- `getPaginationParams`: the page and the limit.
unfoldable pub get_pagination_params : Params → ℤ × ℤ
unfolding atoi
get_pagination_params ps = (
  or_default (pos 1) (atoi (get_param ps "page")),
  or_default (pos 10) (atoi (get_param ps "limit")),
)
