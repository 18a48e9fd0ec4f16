-- ===== src/Accounts/Laws.antt =====
-- What MySQL does with the statements on the accounts, as hypotheses of the theorems: a view of the rows
-- that are committed. How it compares a stored date with a text is left open, and how its collation
-- compares two addresses: the tables are declared with utf8mb4_uca1400_ai_ci, which ignores case and
-- accents. The codes are in lower-case hexadecimal, so for them the collation does not matter.
use student_system_go.Common.{ℕ, ◌≡◌, String, Bool, true, Option, none, some, List, [], ◌∷◌}
use student_system_go.Common.Int.{ℤ}
use student_system_go.Reflect.{Value, int, text}
use student_system_go.Models.{Exec}
use student_system_go.Sql.{Sql, row, no_rows, done, refused}
use student_system_go.Sql.Laws.{View, write_at}
use student_system_go.Accounts.{select_by_email, store_code, select_by_code, reset_query}

abbrev pub with_code : String → String → Exec → Exec
with_code code expires e = record e {
  password_reset_code = some code;
  password_reset_code_expires = some expires;
}

abbrev pub with_new_password : String → String → Exec → Exec
with_new_password hash now e = record e {
  password = hash;
  password_reset_code = none;
  password_reset_code_expires = none;
  password_changed_at = some now;
}

-- A row whose code is `code` and is good at `now`.
pub record Holds (is_later : String → String → Bool) (code now : String) (e : Exec) : Type 0 where
  pub expires : String
  pub has_code : e.password_reset_code ≡ some code
  pub has_expiry : e.password_reset_code_expires ≡ some expires
  pub unexpired : is_later expires now ≡ true

pub record IsAccounts (db : Sql) : Type 0 where
  pub row_at : db.S → View Exec
  pub is_later : String → String → Bool
  pub collates : String → String → Bool
  pub exec_refused :
      (q : String) (args : List Value) (s : db.S) (cause : String)
      → (db.exec q args s).0 ≡ refused cause
      → (j : ℤ) → row_at (db.exec q args s).1 j ≡ row_at s j
  pub select_by_email_row :
      (email : String) (s : db.S) (vs : List Value)
      → db.query_row select_by_email (text email ∷ []) s ≡ row vs
      → (id : ℤ) × (e : Exec) × (vs ≡ int id ∷ text e.username ∷ [])
        × (row_at s id ≡ some e)
        × (collates e.email email ≡ true)
  pub select_by_code_row :
      (code now : String) (s : db.S) (vs : List Value)
      → db.query_row select_by_code (text code ∷ text now ∷ []) s ≡ row vs
      → (id : ℤ) × (e : Exec) × (vs ≡ int id ∷ text e.email ∷ [])
        × (row_at s id ≡ some e)
        × Holds is_later code now e
  pub select_by_code_absent :
      (code now : String) (s : db.S)
      → db.query_row select_by_code (text code ∷ text now ∷ []) s ≡ no_rows
      → (id : ℤ) (e : Exec) → row_at s id ≡ some e
      → Holds is_later code now e
      → ⊥
  pub exec_store_code :
      (code expires : String) (id : ℤ) (s : db.S) (n : Option ℕ) (l : Option ℤ)
      → (db.exec store_code (text code ∷ text expires ∷ int id ∷ []) s).0 ≡ done n l
      → (j : ℤ)
      → row_at (db.exec store_code (text code ∷ text expires ∷ int id ∷ []) s).1 j
        ≡ write_at id (with_code code expires) (row_at s) j
  pub exec_reset :
      (hash now : String) (id : ℤ) (s : db.S) (n : Option ℕ) (l : Option ℤ)
      → (db.exec reset_query (text hash ∷ text now ∷ int id ∷ []) s).0 ≡ done n l
      → (j : ℤ)
      → row_at (db.exec reset_query (text hash ∷ text now ∷ int id ∷ []) s).1 j
        ≡ write_at id (with_new_password hash now) (row_at s) j
