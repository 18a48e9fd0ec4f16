-- ===== src/Hpp/Once.antt =====
-- What a handler reads of a URL that went through the filter.
use mathlib.Core.Bool.{false≢true}
use mathlib.Core.List.{append-nil}
use student_system_go.Common.{
  ◌≡◌, refl, sym, ap, ◌∙◌, inl, inr, String, Bool, true, false, not, List, [], ◌∷◌, ◌++◌, length,
  ltb, Bool-cases, if◌then◌else◌, arith, eq_iff,
}
use student_system_go.Common.Text.{same}
use student_system_go.Query.{Params, values_of, first_of}
use student_system_go.Hpp.{
  is_white_listed_param, without, keys_of, filter_values, entries, filter_keys, filter_query_params,
}

same-sym : (s t : String) → same s t ≡ false → same t s ≡ false
same-sym s t h = elim (Bool-cases (same t s)) [
  | inl equal ↦ absurd (false≢true (sym h ∙ (eq_iff s t).1 (sym ((eq_iff t s).0 equal))))
  | inr other ↦ other
]

abbrev pub at_most_one : List String → List String
at_most_one [] = []
at_most_one (v ∷ vs) = v ∷ []

abbrev if_any : List String → List String → List String
if_any [] x = []
if_any (v ∷ vs) x = x

values_of-entries :
    (k j : String) (vs : List String) (rest : Params)
    → same j k ≡ true
    → values_of k (entries j vs ++ rest) ≡ vs ++ values_of k rest
values_of-entries k j [] rest h = refl
values_of-entries k j (v ∷ vs) rest h = rw h (ap (λ x. v ∷ x) (values_of-entries k j vs rest h))

values_of-entries_other :
    (k j : String) (vs : List String) (rest : Params)
    → same j k ≡ false
    → values_of k (entries j vs ++ rest) ≡ values_of k rest
values_of-entries_other k j [] rest h = refl
values_of-entries_other k j (v ∷ vs) rest h = rw h (values_of-entries_other k j vs rest h)

module _ (w : List String) (query : String → List String) (k : String) where
  values_of-without : (ks : List String) → values_of k (filter_keys w query (without k ks)) ≡ []
  values_of-without [] = refl
  values_of-without (j ∷ ks) = elim (Bool-cases (same k j)) [
    | inl equal ↦ rw equal (values_of-without ks)
    | inr other ↦ rw other (
        values_of-entries_other k j (filter_values w j (query j)) _ (same-sym k j other)
        ∙ values_of-without ks)
  ]

  values_of-without_other :
      (j : String) (ks : List String)
      → same j k ≡ false
      → values_of k (filter_keys w query (without j ks)) ≡ values_of k (filter_keys w query ks)
  values_of-without_other j [] h = refl
  values_of-without_other j (i ∷ ks) h = elim (Bool-cases (same j i)) [
    | inl equal ↦ rw equal (
        values_of-without_other j ks h
        ∙ sym (
            values_of-entries_other k i (filter_values w i (query i)) _
              (ap (λ x. same x k) (sym ((eq_iff j i).0 equal)) ∙ h)))
    | inr other ↦ rw other (elim (Bool-cases (same i k)) [
      | inl here ↦
          values_of-entries k i (filter_values w i (query i)) _ here
          ∙ ap (λ x. filter_values w i (query i) ++ x) (values_of-without_other j ks h)
          ∙ sym (values_of-entries k i (filter_values w i (query i)) _ here)
      | inr there ↦
          values_of-entries_other k i (filter_values w i (query i)) _ there
          ∙ values_of-without_other j ks h
          ∙ sym (values_of-entries_other k i (filter_values w i (query i)) _ there)
    ])
  ]

  values_of-keys :
      (ps : Params)
      → values_of k (filter_keys w query (keys_of ps))
        ≡ if_any (values_of k ps) (filter_values w k (query k))
  values_of-keys [] = refl
  values_of-keys ((j, v) ∷ ps) = elim (Bool-cases (same j k)) [
    | inl equal ↦ rw equal (
        values_of-entries k j (filter_values w j (query j)) _ equal
        ∙ ap
            (λ i.
              filter_values w i (query i)
              ++ values_of k (filter_keys w query (without i (keys_of ps))))
            ((eq_iff j k).0 equal)
        ∙ ap (λ x. filter_values w k (query k) ++ x) (values_of-without (keys_of ps))
        ∙ append-nil _)
    | inr other ↦ rw other (
        values_of-entries_other k j (filter_values w j (query j)) _ other
        ∙ values_of-without_other j (keys_of ps) other
        ∙ values_of-keys ps)
  ]

-- After the filter, a handler reads of a parameter its first value, if the whitelist has it, and
-- nothing otherwise, however often and in whatever order the URL gives the parameters.
pub filter_query_params-values :
    (w : List String) (ps : Params) (k : String)
    → values_of k (filter_query_params w ps)
      ≡ (if is_white_listed_param k w then at_most_one (values_of k ps) else [])
unfolding filter_query_params
filter_query_params-values w ps k =
    values_of-keys w (λ j. values_of j ps) k ps ∙ go (values_of k ps) (is_white_listed_param k w)
  where
    go :
        (vs : List String) (listed : Bool)
        → if_any vs (if not listed then [] else if ltb 1 (length vs) then first_of vs ∷ [] else vs)
          ≡ (if listed then at_most_one vs else [])
    go [] true = refl
    go [] false = refl
    go (v ∷ vs) false = refl
    go (v ∷ []) true = refl
    go (v ∷ u ∷ vs) true = ap (λ b. if b then v ∷ [] else v ∷ u ∷ vs) several
      where
        several : ltb 1 (length (v ∷ u ∷ vs)) ≡ true
        several = ground arith
