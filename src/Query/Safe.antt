-- ===== src/Query/Safe.antt =====
-- No text of the client becomes part of a query: what is appended is made of fixed columns and orders,
-- and each value is an argument of its own placeholder.
use package.text.Mathlib.TextLemmas.{append_assoc, append-nil, nil-append, cons-append}
use mathlib.Core.Path.{subst}
use student_system_go.Common.{
  ℕ, suc, ◌+◌, ◌≡◌, refl, sym, ap, ◌∙◌, ◌⊎◌, inl, inr, String, Bool, true, false, ◌||◌, not, List,
  [], ◌∷◌, ◌++◌, ◌==◌, code, length, length-append, All, Bool-cases, if◌then◌else◌, arith, eq_iff,
}
use student_system_go.Common.Text.{same, ◌<>◌, split}
use student_system_go.Reflect.{Value, text}
use student_system_go.Query.{
  Params, get_param, values_of, is_valid_sort_order, is_valid_sort_field, comma, sort_parts,
  sort_loop, sorted, add_sorting, add_filters,
}

abbrev pub SortField : String → Type 0
SortField field =
    (field ≡ "first_name")
    ⊎ ((field ≡ "last_name") ⊎ ((field ≡ "email") ⊎ ((field ≡ "class") ⊎ (field ≡ "subject"))))

abbrev pub SortOrder : String → Type 0
SortOrder order = (order ≡ "asc") ⊎ (order ≡ "desc")

-- What may follow ORDER BY.
pub data Sorting : String → Type 0 where
  end : Sorting ""
  column :
      (separator field order s : String)
      → (separator ≡ "") ⊎ (separator ≡ ",")
      → SortField field
      → SortOrder order
      → Sorting s
      → Sorting ((separator <> " " <> field <> " " <> order) <> s)

or-same : (b : Bool) (s t : String) → (b || same s t) ≡ true → (b ≡ true) ⊎ (s ≡ t)
or-same true s t h = inl refl
or-same false s t h = inr ((eq_iff s t).0 h)

valid-SortOrder : (order : String) → is_valid_sort_order order ≡ true → SortOrder order
valid-SortOrder order h = elim (or-same _ order "desc" h) [
  | inl rest ↦ inl ((eq_iff order "asc").0 rest)
  | inr desc ↦ inr desc
]

valid-SortField : (field : String) → is_valid_sort_field field ≡ true → SortField field
valid-SortField f h = elim (or-same _ f "subject" h) [
  | inr e ↦ inr (inr (inr (inr e)))
  | inl h4 ↦ elim (or-same _ f "class" h4) [
    | inr e ↦ inr (inr (inr (inl e)))
    | inl h3 ↦ elim (or-same _ f "email" h3) [
      | inr e ↦ inr (inr (inl e))
      | inl h2 ↦ elim (or-same _ f "last_name" h2) [
        | inr e ↦ inr (inl e)
        | inl h1 ↦ inl ((eq_iff f "first_name").0 h1)
      ]
    ]
  ]
]

comma_lem : (i : ℕ) → (comma i ≡ "") ⊎ (comma i ≡ ",")
comma_lem i = elim (Bool-cases (i == 0)) [
  | inl first ↦ inl (ap (λ b. if b then "" else ",") first)
  | inr later ↦ inr (ap (λ b. if b then "" else ",") later)
]

and-cases : (a b : Bool) → ((a ≡ true) × (b ≡ true)) ⊎ ((not a || not b) ≡ true)
and-cases true true = inl (refl, refl)
and-cases true false = inr refl
and-cases false b = inr refl

nothing_added : (s : String) → Sorting s → Sorting ("" <> s)
nothing_added s h = subst Sorting (sym (nil-append s)) h

-- One parameter adds nothing, or one column with its order.
sort_parts-Sorting :
    (i : ℕ) (parts : List String) (s : String) → Sorting s → Sorting (sort_parts i parts <> s)
sort_parts-Sorting i [] s h = nothing_added s h
sort_parts-Sorting i (f ∷ []) s h = nothing_added s h
sort_parts-Sorting i (f ∷ o ∷ []) s h =
    elim (and-cases (is_valid_sort_order o) (is_valid_sort_field f)) [
      | inl good ↦
          subst (λ t. Sorting (t <> s))
            (sym (
              ap
                (λ b.
                  if not b || not (is_valid_sort_field f)
                  then ""
                  else comma i <> " " <> f <> " " <> o)
                good.0
              ∙ ap (λ b. if not b then "" else comma i <> " " <> f <> " " <> o) good.1))
            (column (comma i) f o s (comma_lem i) (valid-SortField f good.1)
              (valid-SortOrder o good.0) h)
      | inr bad ↦
          subst (λ t. Sorting (t <> s))
            (sym (ap (λ b. if b then "" else comma i <> " " <> f <> " " <> o) bad))
            (nothing_added s h)
    ]
sort_parts-Sorting i (f ∷ o ∷ p ∷ ps) s h = nothing_added s h

sort_loop-Sorting :
    (i : ℕ) (params : List String) (q : String)
    → (s : String) × (Sorting s × (sort_loop i params q ≡ q <> s))
unfolding sort_loop
sort_loop-Sorting i [] q = ("", (end, sym (append-nil q)))
sort_loop-Sorting i (p ∷ params) q =
    let part = sort_parts i (split b':' p) in
    let rest = sort_loop-Sorting (suc i) params (q <> part) in
    (
      part <> rest.0,
      (sort_parts-Sorting i (split b':' p) rest.0 rest.1.0, rest.1.1 ∙ append_assoc q part rest.0),
    )

-- AddSorting leaves the query as it is when the request has no sort parameter. Otherwise it appends
-- " ORDER BY " and a list of the five columns, each with asc or desc: whatever the request asks for, no
-- other text gets into the query.
pub add_sorting-Sorting :
    (ps : Params) (q : String)
    → ((values_of "sortby" ps ≡ []) × (add_sorting ps q ≡ q))
      ⊎ ((s : String) × (Sorting s × (add_sorting ps q ≡ q <> " ORDER BY " <> s)))
unfolding add_sorting
add_sorting-Sorting ps q = go (values_of "sortby" ps)
  where
    go :
        (params : List String)
        → ((params ≡ []) × (sorted params q ≡ q))
          ⊎ ((s : String) × (Sorting s × (sorted params q ≡ q <> " ORDER BY " <> s)))
    go [] = inl (refl, refl)
    go (p ∷ params) =
        let run = sort_loop-Sorting 0 (p ∷ params) (q <> " ORDER BY ") in
        inr (run.0, (run.1.0, run.1.1 ∙ append_assoc q " ORDER BY " run.0))

-- The placeholders of a query.
abbrev pub marks : String → ℕ
marks String.[] = 0
marks (String.◌∷◌ c s) = if code c == b'?' then suc (marks s) else marks s

pub marks-append : (s t : String) → marks (s <> t) ≡ marks s + marks t
marks-append String.[] t = ap marks (nil-append t) ∙ sym (omega arith)
marks-append (String.◌∷◌ c s) t =
    ap marks (cons-append c s t) ∙ step (code c == b'?') _ _ _ (marks-append s t)
  where
    step :
        (mark : Bool) (l m n : ℕ)
        → l ≡ m + n
        → (if mark then suc l else l) ≡ (if mark then suc m else m) + n
    step true l m n h = omega arith
    step false l m n h = h

marks-column : (q c : String) → marks c ≡ 0 → marks (q <> " AND " <> c <> " = ?") ≡ marks q + 1
marks-column q c plain =
    let whole = marks-append q (" AND " <> c <> " = ?") in
    let tail = marks-append " AND " (c <> " = ?") in
    let last = marks-append c " = ?" in
    let joint : marks " AND " ≡ 0 = refl in let sign : marks " = ?" ≡ 1 = refl in omega arith

if_either : {A : Type 0} (P : A → Type 0) (b : Bool) {x y : A} → P x → P y → P (if b then x else y)
if_either P true h k = h
if_either P false h k = k

if_alike :
    {A B : Type 0} (f : A → B) {b c : Bool} {x y z w : A}
    → b ≡ c
    → f x ≡ f z
    → f y ≡ f w
    → f (if b then x else y) ≡ f (if c then z else w)
if_alike f {b} {c} {x} {y} {z} {w} equal h k = ap (λ t. f (if t then x else y)) equal ∙ go c
  where
    go : (c : Bool) → f (if c then x else y) ≡ f (if c then z else w)
    go true = h
    go false = k

-- AddFilters keeps a query and its arguments in step: over columns without a "?", each placeholder that
-- it appends has its own argument.
pub add_filters-marks :
    (columns : List String) (ps : Params) (q : String) (args : List Value)
    → All (λ c. marks c ≡ 0) columns
    → marks q ≡ length args
    → marks (add_filters columns ps q args).0 ≡ length (add_filters columns ps q args).1
unfolding add_filters
add_filters-marks [] ps q args plain balanced = balanced
add_filters-marks (c ∷ columns) ps q args plain balanced =
    if_either (λ (r : String × List Value). marks r.0 ≡ length r.1) (same (get_param ps c) "")
      (add_filters-marks columns ps q args plain.1 balanced)
      (add_filters-marks columns ps (q <> " AND " <> c <> " = ?")
        (args ++ text (get_param ps c) ∷ []) plain.1
        (marks-column q c plain.0
          ∙ ap (λ n. n + 1) balanced
          ∙ sym (length-append args (text (get_param ps c) ∷ []))))

-- The text that AddFilters builds does not depend on the values of the parameters, only on which of
-- the columns have one that is not empty, so no value is read as SQL.
pub add_filters-query :
    (columns : List String) (ps others : Params) (q : String) (args more : List Value)
    → All (λ c. same (get_param ps c) "" ≡ same (get_param others c) "") columns
    → (add_filters columns ps q args).0 ≡ (add_filters columns others q more).0
unfolding add_filters
add_filters-query [] ps others q args more alike = refl
add_filters-query (c ∷ columns) ps others q args more alike =
    if_alike (λ (r : String × List Value). r.0) alike.0
      (add_filters-query columns ps others q args more alike.1)
      (add_filters-query columns ps others (q <> " AND " <> c <> " = ?") _ _ alike.1)
