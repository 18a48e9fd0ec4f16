-- ===== src/Accounts/Memory.antt =====
-- A server that holds one exec and knows the statements on the accounts. It meets the laws; the examples
-- run on it. A date is later than a text that is another, and addresses are
-- compared without their case.
use mathlib.Core.Path.{subst}
use student_system_go.Common.{
  ◌≡◌, refl, sym, ap, ◌∙◌, String, Bool, true, false, ◌&&◌, not, Option, none, some, List, [], ◌∷◌,
  arith, inl, inr, eq_iff, Bool-cases, if◌then◌else◌,
}
use student_system_go.Common.Int.{ℤ, ◌==ℤ◌, ==ℤ_iff, ==ℤ_refl}
use student_system_go.Common.Text.{same}
use student_system_go.Models.{Exec}
use student_system_go.Reflect.{Value, int, text}
use student_system_go.Reflect.Decode.{equal_fold}
use student_system_go.Sql.{Sql, Row, row, no_rows, failed, Done, done, refused}
use student_system_go.Sql.Laws.{View, write_at}
use student_system_go.Accounts.{select_by_email, store_code, select_by_code, reset_query}
use student_system_go.Accounts.Laws.{with_code, with_new_password, Holds, IsAccounts}

abbrev pub differs : String → String → Bool
differs x y = not (same x y)

abbrev pub by_email : List Value → Exec → Row
by_email (text m ∷ []) e =
    if equal_fold e.email m then row (int e.id ∷ text e.username ∷ []) else no_rows
by_email _ e = failed

abbrev is_held : Option String → Option String → String → String → Bool
is_held (some c) (some x) code now = same c code && differs x now
is_held _ _ code now = false

abbrev pub by_code : List Value → Exec → Row
by_code (text c ∷ text now ∷ []) e =
    if is_held e.password_reset_code e.password_reset_code_expires c now
    then row (int e.id ∷ text e.email ∷ [])
    else no_rows
by_code _ e = failed

abbrev pub answer : String → List Value → Exec → Row
answer q args e =
    if same q select_by_email
    then by_email args e
    else if same q select_by_code
    then by_code args e
    else failed

abbrev pub at_id : ℤ → (Exec → Exec) → Exec → Exec
at_id id f e = if id ==ℤ e.id then f e else e

abbrev coded : List Value → Option (ℤ × (Exec → Exec))
coded (text c ∷ text x ∷ int id ∷ []) = some (id, with_code c x)
coded _ = none

abbrev renewed : List Value → Option (ℤ × (Exec → Exec))
renewed (text h ∷ text t ∷ int id ∷ []) = some (id, with_new_password h t)
renewed _ = none

abbrev written : Option (ℤ × (Exec → Exec)) → Exec → Done × Exec
written none e = (refused "syntax error", e)
written (some (id, f)) e = (done (some 1) none, at_id id f e)

abbrev pub run : String → List Value → Exec → Done × Exec
run q args e =
    if same q store_code
    then written (coded args) e
    else if same q reset_query
    then written (renewed args) e
    else (refused "unknown statement", e)

abbrev pub one_account : Sql
one_account = record {
  S = Exec;
  query_row = answer;
  read_row = λ q args s. failed;
  query = λ q args e. none;
  prepare = λ q e. false;
  exec = run;
  begin = λ e. (false, e);
  tx_exec = λ q args e. (refused "no transaction", e);
  commit = λ e. (false, e);
  rollback = λ e. e;
}

abbrev pub only : Exec → View Exec
only e j = if j ==ℤ e.id then some e else none

pub only_self : (e : Exec) → only e e.id ≡ some e
only_self e = rw (==ℤ_refl e.id)

pub only-at : (e a : Exec) (id : ℤ) → only e id ≡ some a → e ≡ a
only-at e a id h = elim (Bool-cases (id ==ℤ e.id)) [
  | inl here ↦ (let h2 = (rw here at h) in cc)
  | inr away ↦ cc (rw away at h)
]

pub only-id : (e a : Exec) (id : ℤ) → only e id ≡ some a → id ≡ e.id
only-id e a id h = elim (Bool-cases (id ==ℤ e.id)) [
  | inl here ↦ (==ℤ_iff id e.id).0 here
  | inr away ↦ cc (rw away at h)
]

and-true : (a b : Bool) → (a && b) ≡ true → (a ≡ true) × (b ≡ true)
and-true true b h = (refl, h)
and-true false b h = cc

row-Holds :
    (e : Exec) (code now : String) (c x : Option String)
    → e.password_reset_code ≡ c
    → e.password_reset_code_expires ≡ x
    → is_held c x code now ≡ true
    → Holds differs code now e
row-Holds e code now none x hc hx h = cc
row-Holds e code now (some c) none hc hx h = cc
row-Holds e code now (some c) (some x) hc hx h =
    let (same_code, later) = and-true (same c code) (differs x now) h in
    record {
      expires = x;
      has_code = hc ∙ ap some ((eq_iff c code).0 same_code);
      has_expiry = hx;
      unexpired = later;
    }

Holds-row :
    (e : Exec) (code now : String)
    → Holds differs code now e
    → is_held e.password_reset_code e.password_reset_code_expires code now ≡ true
Holds-row e code now h = rw (h.has_code, h.has_expiry, (eq_iff code code).1 refl, h.unexpired)

written-refused :
    (o : Option (ℤ × (Exec → Exec))) (e : Exec) (cause : String)
    → (written o e).0 ≡ refused cause
    → (written o e).1 ≡ e
written-refused none e cause h = refl
written-refused (some (id, f)) e cause h = cc

pub run-refused :
    (q : String) (args : List Value) (e : Exec) (cause : String)
    → (run q args e).0 ≡ refused cause
    → (run q args e).1 ≡ e
run-refused q args e cause h = elim (Bool-cases (same q store_code)) [
  | inl store ↦ rw store (written-refused (coded args) e cause (rw store at h))
  | inr other ↦ elim (Bool-cases (same q reset_query)) [
    | inl reset ↦
        rw (other, reset) (written-refused (renewed args) e cause (rw (other, reset) at h))
    | inr unknown ↦ rw (other, unknown)
  ]
]

pub at_id-only :
    (id : ℤ) (f : Exec → Exec) (e : Exec)
    → (f e).id ≡ e.id
    → (j : ℤ) → only (at_id id f e) j ≡ write_at id f (only e) j
at_id-only id f e h j = elim (Bool-cases (id ==ℤ e.id)) [
  | inl mine ↦
      let test : (j ==ℤ id) ≡ (j ==ℤ e.id) = ap (λ i. j ==ℤ i) ((==ℤ_iff id e.id).0 mine) in
      rw (mine, h, test) (ground arith)
  | inr other ↦ elim (Bool-cases (j ==ℤ id)) [
    | inl at ↦
        let away : (j ==ℤ e.id) ≡ false = ap (λ i. i ==ℤ e.id) ((==ℤ_iff j id).0 at) ∙ other in
        rw (other, at, away)
    | inr not_at ↦ rw (other, not_at)
  ]
]

pub email-row :
    (m : String) (e : Exec) (vs : List Value)
    → by_email (text m ∷ []) e ≡ row vs
    → (vs ≡ int e.id ∷ text e.username ∷ []) × (equal_fold e.email m ≡ true)
email-row m e vs h = elim (Bool-cases (equal_fold e.email m)) [
  | inl equal ↦ (let h2 = (rw equal at h) in (cc, equal))
  | inr other ↦ cc (rw other at h)
]

pub code-row :
    (code now : String) (e : Exec) (vs : List Value)
    → by_code (text code ∷ text now ∷ []) e ≡ row vs
    → (vs ≡ int e.id ∷ text e.email ∷ []) × Holds differs code now e
code-row code now e vs h =
    elim (Bool-cases (is_held e.password_reset_code e.password_reset_code_expires code now)) [
      | inl held ↦
          (let h2 = (rw held at h) in
            (
              cc,
              row-Holds e code now e.password_reset_code e.password_reset_code_expires refl refl
                  held,
            ))
      | inr other ↦ cc (rw other at h)
    ]

pub code-absent :
    (code now : String) (e : Exec)
    → by_code (text code ∷ text now ∷ []) e ≡ no_rows
    → Holds differs code now e
    → ⊥
code-absent code now e h holds = cc (rw (Holds-row e code now holds) at h)

unfoldable pub one_account-IsAccounts : IsAccounts one_account
one_account-IsAccounts = record {
  row_at = only;
  is_later = differs;
  collates = equal_fold;
  exec_refused = λ q args e cause h j. ap (λ x. only x j) (run-refused q args e cause h);
  select_by_email_row =
      λ m e vs h. (e.id, e, (email-row m e vs h).0, only_self e, (email-row m e vs h).1);
  select_by_code_row =
      λ c now e vs h. (e.id, e, (code-row c now e vs h).0, only_self e, (code-row c now e vs h).1);
  select_by_code_absent = λ c now e h id a here holds.
      code-absent c now e h (subst (Holds differs c now) (sym (only-at e a id here)) holds);
  exec_store_code = λ c x id e n l h j. at_id-only id (with_code c x) e refl j;
  exec_reset = λ hash now id e n l h j. at_id-only id (with_new_password hash now) e refl j;
}
