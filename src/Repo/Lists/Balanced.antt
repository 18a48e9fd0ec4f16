-- ===== src/Repo/Lists/Balanced.antt =====
-- The queries of the lists are in step with their arguments.
use student_system_go.Common.{
  ◌≡◌, refl, ap, ◌∙◌, ◌⊎◌, inl, inr, String, List, [], ◌∷◌, All, length, length-append, arith,
}
use student_system_go.Common.Int.{ℤ}
use student_system_go.Common.Text.{◌<>◌}
use student_system_go.Reflect.{int}
use student_system_go.Query.{Params, add_sorting, add_filters}
use student_system_go.Query.Safe.{
  SortField, SortOrder, Sorting, end, column, add_sorting-Sorting, marks, marks-append,
  add_filters-marks,
}
use student_system_go.Repo.Lists.{
  student_listing, teacher_listing, exec_listing, list_query, page_query, offset,
}

field-marks : (f : String) → SortField f → marks f ≡ 0
field-marks f (inl e) = ap marks e
field-marks f (inr (inl e)) = ap marks e
field-marks f (inr (inr (inl e))) = ap marks e
field-marks f (inr (inr (inr (inl e)))) = ap marks e
field-marks f (inr (inr (inr (inr e)))) = ap marks e

order-marks : (o : String) → SortOrder o → marks o ≡ 0
order-marks o (inl e) = ap marks e
order-marks o (inr e) = ap marks e

separator-marks : (s : String) → (s ≡ "") ⊎ (s ≡ ",") → marks s ≡ 0
separator-marks s (inl e) = ap marks e
separator-marks s (inr e) = ap marks e

Sorting-marks : (s : String) → Sorting s → marks s ≡ 0
Sorting-marks _ end = refl
Sorting-marks _ (column separator f o s h hf ho rest) =
    let whole = marks-append (separator <> " " <> f <> " " <> o) s in
    let first = marks-append separator (" " <> f <> " " <> o) in
    let second = marks-append " " (f <> " " <> o) in
    let third = marks-append f (" " <> o) in
    let fourth = marks-append " " o in
    let blank : marks " " ≡ 0 = refl in
    let a = separator-marks separator h in
    let b = field-marks f hf in
    let c = order-marks o ho in let d = Sorting-marks s rest in omega arith

add_sorting-marks : (ps : Params) (q : String) → marks (add_sorting ps q) ≡ marks q
add_sorting-marks ps q = elim (add_sorting-Sorting ps q) [
  | inl plain ↦ ap marks plain.1
  | inr (s, (sorting, sorted)) ↦
      let whole = marks-append q (" ORDER BY " <> s) in
      let rest = marks-append " ORDER BY " s in
      let keyword : marks " ORDER BY " ≡ 0 = refl in
      let none_there = Sorting-marks s sorting in ap marks sorted ∙ omega arith
]

pub list_query-marks :
    (base : String) (columns : List String) (ps : Params)
    → marks base ≡ 0
    → All (λ c. marks c ≡ 0) columns
    → marks (list_query base columns ps).0 ≡ length (list_query base columns ps).1
unfolding list_query
list_query-marks base columns ps fixed plain =
    add_sorting-marks ps (add_filters columns ps base []).0
    ∙ add_filters-marks columns ps base [] plain fixed

-- Each of the three list queries has one argument for each placeholder, whatever the request asks for
-- in filters, sorting and pages, over columns without a "?".
pub page_query-marks :
    (columns : List String) (ps : Params) (limit page : ℤ)
    → All (λ c. marks c ≡ 0) columns
    → (marks (page_query columns ps limit page).0 ≡ length (page_query columns ps limit page).1)
      × (marks (list_query teacher_listing.base columns ps).0
          ≡ length (list_query teacher_listing.base columns ps).1)
      × (marks (list_query exec_listing.base columns ps).0
          ≡ length (list_query exec_listing.base columns ps).1)
unfolding page_query
page_query-marks columns ps limit page plain =
    let listed = list_query student_listing.base columns ps in
    let balanced = list_query-marks student_listing.base columns ps refl plain in
    let query = marks-append listed.0 " LIMIT ? OFFSET ?" in
    let args = length-append listed.1 (int limit ∷ int (offset page limit) ∷ []) in
    let two : marks " LIMIT ? OFFSET ?" ≡ 2 = refl in
    (
      omega arith,
      list_query-marks teacher_listing.base columns ps refl plain,
      list_query-marks exec_listing.base columns ps refl plain,
    )
