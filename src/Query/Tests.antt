-- ===== src/Query/Tests.antt =====
-- Runs of the query building.
use student_system_go.Common.{◌≡◌, refl, ◌⊎◌, String, List, [], ◌∷◌}
use student_system_go.Common.Text.{◌<>◌, split}
use student_system_go.Reflect.{text}
use student_system_go.Query.{Params, values_of, sort_loop, add_sorting, add_filters}
use student_system_go.Query.Safe.{Sorting, add_sorting-Sorting, add_filters-query}

sorting_tests :
    (add_sorting (("sortby", "email:asc") ∷ ("sortby", "class:desc") ∷ []) "Q"
      ≡ "Q ORDER BY  email asc, class desc")
    × (add_sorting (("sortby", "bogus") ∷ []) "Q" ≡ "Q ORDER BY ")
    × (add_sorting (("sortby", "bogus") ∷ ("sortby", "email:asc") ∷ []) "Q"
        ≡ "Q ORDER BY , email asc")
unfolding add_sorting sort_loop split
sorting_tests = (refl, refl, refl)

filter_tests :
    add_filters ("class" ∷ "email" ∷ []) (("email", "x' OR 1=1") ∷ []) "Q" []
    ≡ ("Q AND email = ?", text "x' OR 1=1" ∷ [])
unfolding add_filters
filter_tests = refl

abbrev by_class : Params
by_class = ("class", "5A") ∷ ("sortby", "email:asc") ∷ ("sortby", "1;DROP TABLE execs:asc") ∷ []

abbrev hostile : Params
hostile = ("class", "' OR ''='") ∷ []

abbrev class_and_email : List String
class_and_email = "class" ∷ "email" ∷ []

add_sorting-Sorting_example :
    ((values_of "sortby" by_class ≡ []) × (add_sorting by_class "Q" ≡ "Q"))
    ⊎ ((s : String) × (Sorting s × (add_sorting by_class "Q" ≡ "Q" <> " ORDER BY " <> s)))
add_sorting-Sorting_example = add_sorting-Sorting by_class "Q"

add_filters-query_example :
    (add_filters class_and_email by_class "Q" []).0 ≡ (add_filters class_and_email hostile "Q" []).0
add_filters-query_example =
    add_filters-query class_and_email by_class hostile "Q" [] [] (refl, (refl, tt))
