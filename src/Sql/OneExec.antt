-- ===== src/Sql/OneExec.antt =====
-- A server that holds one exec and knows the two statements of `PatchOneExec`. It meets the laws, so
-- they can hold for the execs too; the example runs on it.
use student_system_go.Common.{
  ◌≡◌, refl, sym, ap, ◌∙◌, String, true, false, Option, none, some, List, [], ◌∷◌, arith, inl, inr,
  Bool-cases, if◌then◌else◌,
}
use student_system_go.Common.Int.{ℤ, ◌==ℤ◌, ==ℤ_iff}
use student_system_go.Common.Text.{same}
use student_system_go.Models.{Exec}
use student_system_go.Reflect.{Value, int, text, bool}
use student_system_go.Entity.Execs.{exec_entity, exec_columns, scan_exec_for_patch, text_or_null}
use student_system_go.Sql.{Sql, Row, row, no_rows, failed, Done, done, refused}
use student_system_go.Sql.Laws.{View, write_at, IsTable}

abbrev select_exec : List Value → Exec → Row
select_exec (int i ∷ []) e =
    if i ==ℤ e.id
    then row (int e.id ∷ text e.first_name ∷ text e.last_name ∷ text e.email ∷ text e.username ∷ [])
    else no_rows
select_exec _ e = failed

abbrev answer : String → List Value → Exec → Row
answer q args e = if same q exec_entity.patch_select then select_exec args e else failed

abbrev written : Option Exec → Exec → Done × Exec
written none e = (refused "syntax error", e)
written (some new) e =
    (done (some 1) none, if new.id ==ℤ e.id then exec_columns.written new e else e)

abbrev with_created : Option (Option String) → Exec → Option Exec
with_created none e = none
with_created (some created) e = some (record e { user_created_at = created })

abbrev exec_of : List Value → Option Exec
exec_of (text f ∷ text l ∷ text m ∷ text u ∷ created ∷ bool b ∷ text r ∷ int i ∷ []) =
    with_created (text_or_null created) (record {
      id = i;
      first_name = f;
      last_name = l;
      email = m;
      username = u;
      password = "";
      password_changed_at = none;
      user_created_at = none;
      password_reset_code = none;
      password_reset_code_expires = none;
      inactive_status = b;
      role = r;
      photo_s3_key = "";
    })
exec_of _ = none

abbrev pub one_exec : Sql
one_exec = record {
  S = Exec;
  query_row = answer;
  read_row = λ q args s. failed;
  query = λ q args e. none;
  prepare = λ q e. true;
  exec = λ q args e.
      if same q exec_entity.update then written (exec_of args) e else (refused "unknown", e);
  begin = λ e. (false, e);
  tx_exec = λ q args e. (refused "no transaction", e);
  commit = λ e. (false, e);
  rollback = λ e. e;
}

abbrev only : Exec → View Exec
only e j = if j ==ℤ e.id then some e else none

abbrev scan_of : Row → Option Exec
scan_of (row vs) = scan_exec_for_patch vs
scan_of _ = none

pub select-only :
    (id : ℤ) (e : Exec) (vs : List Value)
    → answer exec_entity.patch_select (int id ∷ []) e ≡ row vs
    → (r : Exec) × (only e id ≡ some r)
      × (r.id ≡ id)
      × (scan_exec_for_patch vs ≡ some (exec_columns.patch_selected r))
select-only id e vs h = elim (Bool-cases (id ==ℤ e.id)) [
  | inl here ↦ (e, rw here, sym ((==ℤ_iff id e.id).0 here), sym (ap scan_of (rw here at h)))
  | inr other ↦ cc (rw other at h)
]

-- The columns that an UPDATE carries.
abbrev carried : Exec → Exec
carried new = record new {
  password = "";
  password_changed_at = none;
  password_reset_code = none;
  password_reset_code_expires = none;
  photo_s3_key = "";
}

exec_of-carried : (new : Exec) → exec_of (exec_entity.update_args new) ≡ some (carried new)
exec_of-carried new = go new.user_created_at
  where
    at : Option String → Exec
    at o = record new { user_created_at = o }

    go : (o : Option String) → exec_of (exec_entity.update_args (at o)) ≡ some (carried (at o))
    go none = refl
    go (some created) = refl

carried-only :
    (new e : Exec) (j : ℤ)
    → only (written (some (carried new)) e).1 j
      ≡ write_at new.id (exec_columns.written new) (only e) j
carried-only new e j = elim (Bool-cases (new.id ==ℤ e.id)) [
  | inl mine ↦
      let same_id : new.id ≡ e.id = (==ℤ_iff new.id e.id).0 mine in
      let test : (j ==ℤ new.id) ≡ (j ==ℤ e.id) = ap (λ i. j ==ℤ i) same_id in
      rw (mine, test) (ground arith)
  | inr other ↦ elim (Bool-cases (j ==ℤ new.id)) [
    | inl at ↦
        let j_new : j ≡ new.id = (==ℤ_iff j new.id).0 at in
        let away : (j ==ℤ e.id) ≡ false = ap (λ i. i ==ℤ e.id) j_new ∙ other in rw (other, at, away)
    | inr not_at ↦ rw (other, not_at)
  ]
]

pub update-only :
    (new e : Exec) (j : ℤ)
    → only (written (exec_of (exec_entity.update_args new)) e).1 j
      ≡ write_at new.id (exec_columns.written new) (only e) j
update-only new e j = ap (λ o. only (written o e).1 j) (exec_of-carried new) ∙ carried-only new e j

written-refused :
    (o : Option Exec) (e : Exec) (cause : String)
    → (written o e).0 ≡ refused cause
    → (written o e).1 ≡ e
written-refused none e cause h = refl
written-refused (some new) e cause h = cc

pub exec-refused :
    (q : String) (args : List Value) (e : Exec) (cause : String)
    → (one_exec.exec q args e).0 ≡ refused cause
    → (one_exec.exec q args e).1 ≡ e
exec-refused q args e cause h = elim (Bool-cases (same q exec_entity.update)) [
  | inl update ↦ rw update (written-refused (exec_of args) e cause (rw update at h))
  | inr other ↦ rw other
]

unfoldable pub one_exec-IsTable : IsTable one_exec exec_entity exec_columns
one_exec-IsTable = record {
  row_at = only;
  pending = only;
  in_tx = λ e. false;
  select_row = λ id e vs h. ground arith;
  select_absent = λ id e h. ground arith;
  patch_select_row = λ id e vs h. select-only id e vs h;
  exec_refused = λ q args e cause h j. ap (λ x. only x j) (exec-refused q args e cause h);
  exec_update = λ new e n l h j. update-only new e j;
  exec_delete = λ id e n l h j. ground arith;
  exec_delete_count = λ id e n l h. ground arith;
  begin_rows = λ e j. refl;
  begin_pending = λ e h j. refl;
  begin_in_tx = λ e h. refl;
  tx_rows = λ q args e j. refl;
  tx_in_tx = λ q args e. refl;
  tx_update = λ new e n l h j. cc;
  tx_delete = λ id e n l h j. cc;
  tx_delete_count = λ id e n l h. cc;
  commit_done = λ e h j. cc;
  commit_in_tx = λ e. refl;
  rollback_rows = λ e j. refl;
  rollback_in_tx = λ e. refl;
}
