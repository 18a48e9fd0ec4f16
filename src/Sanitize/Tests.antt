-- ===== src/Sanitize/Tests.antt =====
-- Runs of `clean`.
use student_system_go.Common.{
  ◌≡◌, refl, ap, ◌∙◌, inl, inr, Bool-cases, eq_iff, ◌⊎◌, String, none, some, if◌then◌else◌,
}
use student_system_go.Common.Int.{pos}
use student_system_go.Common.Text.{same}
use student_system_go.Reflect.Json.{Json, num, str, obj, end, member}
use student_system_go.Sanitize.{sanitize_value, clean}
use student_system_go.Sanitize.Safe.{AllSafe, Scalar, clean-AllSafe}

-- A policy that lets one text through.
abbrev only_ada : String → String
only_ada s = if same s "Ada" then s else "Ada"

only_ada-Ada : (s : String) → only_ada s ≡ "Ada"
only_ada-Ada s = elim (Bool-cases (same s "Ada")) [
  | inl equal ↦ ap (λ b. if b then s else "Ada") equal ∙ (eq_iff s "Ada").0 equal
  | inr other ↦ ap (λ b. if b then s else "Ada") other
]

abbrev body : Json
body = obj (member "<b>" (str "<script>") (member "id" (num (pos 1)) end))

clean_tests :
    (clean only_ada body ≡ some (obj (member "<b>" (str "Ada") (member "id" (num (pos 1)) end))))
    × (clean only_ada (num (pos 1)) ≡ none)
unfolding clean sanitize_value
clean_tests = (refl, refl)

clean-AllSafe_example :
    (Scalar body × (clean only_ada body ≡ none))
    ⊎ ((c : Json) × ((clean only_ada body ≡ some c) × AllSafe (λ s. s ≡ "Ada") c))
clean-AllSafe_example = clean-AllSafe only_ada (λ s. s ≡ "Ada") only_ada-Ada body
