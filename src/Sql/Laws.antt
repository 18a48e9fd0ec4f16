-- ===== src/Sql/Laws.antt =====
-- What MySQL and `database/sql` document of the statements on one table, as hypotheses of the
-- theorems: a view of the rows that are committed and of the rows that the open transaction sees,
-- and what each call does to them. Which statements succeed is left open.
use student_system_go.Common.{
  ℕ, ◌≡◌, String, Bool, true, false, Option, none, some, List, [], ◌∷◌, if◌then◌else◌,
}
use mathlib.Core.Option
use student_system_go.Common.Int.{ℤ, ◌==ℤ◌}
use student_system_go.Reflect.{Value, int}
use student_system_go.Entity.{Entity, Columns}
use student_system_go.Sql.{Sql, row, no_rows, done, refused}

abbrev pub View : Type 0 → Type 0
View R = ℤ → Option R

-- The view after the columns of `new` are written at `id`.
abbrev pub write_at : {R : Type 0} → ℤ → (R → R) → View R → View R
write_at id f v j = if j ==ℤ id then Option.map f (v j) else v j

abbrev pub delete_at : {R : Type 0} → ℤ → View R → View R
delete_at id v j = if j ==ℤ id then none else v j

abbrev pub count_at : {R : Type 0} → ℤ → View R → ℕ
count_at id v = elim (v id) [ none ↦ 0 | some r ↦ 1 ]

pub record IsTable (db : Sql) {R : Type 0} (e : Entity R) (c : Columns R) : Type 0 where
  pub row_at : db.S → View R
  pub pending : db.S → View R
  pub in_tx : db.S → Bool
  -- reads
  pub select_row :
      (id : ℤ) (s : db.S) (vs : List Value)
      → db.query_row e.select (int id ∷ []) s ≡ row vs
      → (r : R) × (row_at s id ≡ some r) × (e.id r ≡ id) × (e.scan vs ≡ some (c.selected r))
  pub select_absent :
      (id : ℤ) (s : db.S) → db.query_row e.select (int id ∷ []) s ≡ no_rows → row_at s id ≡ none
  pub patch_select_row :
      (id : ℤ) (s : db.S) (vs : List Value)
      → db.query_row e.patch_select (int id ∷ []) s ≡ row vs
      → (r : R) × (row_at s id ≡ some r)
        × (e.id r ≡ id)
        × (e.patch_scan vs ≡ some (c.patch_selected r))
  -- statements that commit at once
  pub exec_refused :
      (q : String) (args : List Value) (s : db.S) (cause : String)
      → (db.exec q args s).0 ≡ refused cause
      → (j : ℤ) → row_at (db.exec q args s).1 j ≡ row_at s j
  pub exec_update :
      (new : R) (s : db.S) (n : Option ℕ) (l : Option ℤ)
      → (db.exec e.update (e.update_args new) s).0 ≡ done n l
      → (j : ℤ)
      → row_at (db.exec e.update (e.update_args new) s).1 j
        ≡ write_at (e.id new) (c.written new) (row_at s) j
  pub exec_delete :
      (id : ℤ) (s : db.S) (n : Option ℕ) (l : Option ℤ)
      → (db.exec e.delete (int id ∷ []) s).0 ≡ done n l
      → (j : ℤ) → row_at (db.exec e.delete (int id ∷ []) s).1 j ≡ delete_at id (row_at s) j
  pub exec_delete_count :
      (id : ℤ) (s : db.S) (n : ℕ) (l : Option ℤ)
      → (db.exec e.delete (int id ∷ []) s).0 ≡ done (some n) l
      → n ≡ count_at id (row_at s)
  -- transactions
  pub begin_rows : (s : db.S) (j : ℤ) → row_at (db.begin s).1 j ≡ row_at s j
  pub begin_pending :
      (s : db.S) → (db.begin s).0 ≡ true → (j : ℤ) → pending (db.begin s).1 j ≡ row_at s j
  pub begin_in_tx : (s : db.S) → in_tx s ≡ false → in_tx (db.begin s).1 ≡ (db.begin s).0
  pub tx_rows :
      (q : String) (args : List Value) (s : db.S) (j : ℤ)
      → row_at (db.tx_exec q args s).1 j ≡ row_at s j
  pub tx_in_tx :
      (q : String) (args : List Value) (s : db.S) → in_tx (db.tx_exec q args s).1 ≡ in_tx s
  pub tx_update :
      (new : R) (s : db.S) (n : Option ℕ) (l : Option ℤ)
      → (db.tx_exec e.tx_update (e.tx_update_args new) s).0 ≡ done n l
      → (j : ℤ)
      → pending (db.tx_exec e.tx_update (e.tx_update_args new) s).1 j
        ≡ write_at (e.id new) (c.tx_written new) (pending s) j
  pub tx_delete :
      (id : ℤ) (s : db.S) (n : Option ℕ) (l : Option ℤ)
      → (db.tx_exec e.delete (int id ∷ []) s).0 ≡ done n l
      → (j : ℤ) → pending (db.tx_exec e.delete (int id ∷ []) s).1 j ≡ delete_at id (pending s) j
  pub tx_delete_count :
      (id : ℤ) (s : db.S) (n : ℕ) (l : Option ℤ)
      → (db.tx_exec e.delete (int id ∷ []) s).0 ≡ done (some n) l
      → n ≡ count_at id (pending s)
  pub commit_done :
      (s : db.S) → (db.commit s).0 ≡ true → (j : ℤ) → row_at (db.commit s).1 j ≡ pending s j
  pub commit_in_tx : (s : db.S) → in_tx (db.commit s).1 ≡ false
  pub rollback_rows : (s : db.S) (j : ℤ) → row_at (db.rollback s) j ≡ row_at s j
  pub rollback_in_tx : (s : db.S) → in_tx (db.rollback s) ≡ false
