-- ===== src/Hpp/Tests.antt =====
-- Runs of the filter.
use student_system_go.Common.{◌≡◌, refl, [], ◌∷◌}
use student_system_go.Common.Int.{pos, negsuc}
use student_system_go.Common.Text.{atoi}
use student_system_go.Query.{Params, get_pagination_params}
use student_system_go.Hpp.{main_whitelist, filter_query_params}
use student_system_go.Hpp.Pages.{get_pagination_params-first}

abbrev request : Params
request = ("page", "2") ∷ ("sortby", "email:asc") ∷ ("class", "5A") ∷ ("sortby", "class:desc") ∷ []

-- A request for the second page loses it.
filter_tests :
    filter_query_params main_whitelist request ≡ ("sortby", "email:asc") ∷ ("class", "5A") ∷ []
unfolding filter_query_params
filter_tests = refl

pagination_tests :
    (get_pagination_params (("page", "2") ∷ ("limit", "50") ∷ []) ≡ (pos 2, pos 50))
    × (get_pagination_params (("page", "x") ∷ ("limit", "-1") ∷ []) ≡ (pos 1, negsuc 0))
unfolding get_pagination_params atoi
pagination_tests = (refl, refl)

get_pagination_params-first_example :
    get_pagination_params (filter_query_params main_whitelist request) ≡ (pos 1, pos 10)
get_pagination_params-first_example = get_pagination_params-first request
