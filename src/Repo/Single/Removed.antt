-- ===== src/Repo/Single/Removed.antt =====
-- `DeleteOneStudent` and its copies: what each leaves in the table, by how it ends.
use mathlib.Core.Path.{fun_ext}
use student_system_go.Common.{
  ℕ, ◌==◌, ◌≡◌, refl, ◌∙◌, sym, ap, ◌⊎◌, inl, inr, String, Bool, true, false, Option, none, some,
  [], ◌∷◌, arith, Option-cases, Bool-cases, if◌then◌else◌,
}
use student_system_go.Common.Int.{ℤ, ◌==ℤ◌, ==ℤ_iff}
use student_system_go.Go.{Result, ok, err, panic, ⊤, pure, raise, ◌>>=◌}
use student_system_go.Reflect.{int}
use student_system_go.Sql.{Sql, Done, done, refused, Pool, connect_db}
use student_system_go.Sql.Laws.{View, delete_at, count_at, IsTable}
use student_system_go.Entity.{Entity, Columns}
use student_system_go.Repo.{or_none, not_refused, delete_row}

-- Deleting at an id without a row changes nothing.
delete_at_absent :
    {R : Type 0} (id : ℤ) (v : View R) → count_at id v ≡ 0 → (j : ℤ) → delete_at id v j ≡ v j
delete_at_absent id v none_there j = elim (Option-cases (v id)) [
  | inl missing ↦ elim (Bool-cases (j ==ℤ id)) [
    | inl same ↦ (let same_id = (==ℤ_iff j id).0 same in rw (same, same_id, missing))
    | inr other ↦ rw other
  ]
  | inr (r, here) ↦ cc (rw (here, count_at) at none_there)
]

count_at-some :
    {R : Type 0} (id : ℤ) (v : View R) → ¬ (count_at id v ≡ 0) → (r : R) × (v id ≡ some r)
count_at-some id v counted = elim (Option-cases (v id)) [
  | inl missing ↦ absurd (counted (rw (missing, count_at)))
  | inr there ↦ there
]

module _ {db : Sql} {R : Type 0} {e : Entity R} {c : Columns R} (t : IsTable db e c) where
  -- How a DELETE of `id` on the rows `v` may end.
  abbrev pub IsDeleted : ℤ → View R → Result ⊤ × Pool db → Type 0
  IsDeleted id v (ok x, q) = ((r : R) × (v id ≡ some r)) × (t.row_at q.server ≡ delete_at id v)
  IsDeleted id v (err m, q) = (t.row_at q.server ≡ v) ⊎ (m ≡ "Failed to retrieve affected rows")
  IsDeleted id v (panic, q) = ⊥

  count-IsDeleted :
      (id : ℤ) (n : Option ℕ) (v : View R) (q : Pool db)
      → t.row_at q.server ≡ delete_at id v
      → ((k : ℕ) → n ≡ some k → k ≡ count_at id v)
      → IsDeleted id v (
          (or_none n "Failed to retrieve affected rows" >>= λ k.
          if k == 0 then raise e.messages.not_found else pure tt)
            q)
  count-IsDeleted id none v q gone counted = inr refl
  count-IsDeleted id (some n) v q gone counted = go (n == 0) refl
    where
      go :
          (b : Bool)
          → (n == 0) ≡ b
          → IsDeleted id v ((if b then raise e.messages.not_found else pure tt) q)
      go true zeros =
          let none_left : n ≡ 0 = ground arith in
          inl (gone ∙ fun_ext (delete_at_absent id v (sym (counted n refl) ∙ none_left)))
      go false positive =
          let some_left : ¬ (n ≡ 0) = λ none_left. ground arith in
          (count_at-some id v (λ none_there. some_left (counted n refl ∙ none_there)), gone)

  done-IsDeleted :
      (id : ℤ) (p q : Pool db) (d : Done)
      → ((n : Option ℕ) (l : Option ℤ)
          → d ≡ done n l
          → (j : ℤ) → t.row_at q.server j ≡ delete_at id (t.row_at p.server) j)
      → ((n : ℕ) (l : Option ℤ) → d ≡ done (some n) l → n ≡ count_at id (t.row_at p.server))
      → ((cause : String) → d ≡ refused cause → (j : ℤ) → t.row_at q.server j ≡ t.row_at p.server j)
      → IsDeleted id (t.row_at p.server) (
          (do
            (n, l) ← not_refused db d (λ cause. e.messages.delete_failed)
            rows_affected ← or_none n "Failed to retrieve affected rows"
            if rows_affected == 0 then raise e.messages.not_found else pure tt)
            q)
  done-IsDeleted id p q (done n l) law counted kept =
      count-IsDeleted id n (t.row_at p.server) q (fun_ext (law n l refl))
        (λ k h. counted k l (ap (λ m. done m l) h))
  done-IsDeleted id p q (refused cause) law counted kept = inl (fun_ext (kept cause refl))

  -- A DELETE never panics. It succeeds only if the row was there, and then exactly that row is gone;
  -- it fails without a change, unless the driver could not tell how many rows were affected.
  pub delete_row-IsDeleted :
      (id : ℤ) (p : Pool db) → IsDeleted id (t.row_at p.server) (delete_row db e id p)
  unfolding delete_row connect_db
  delete_row-IsDeleted id p = go p.ready
    where
      at : Bool → Pool db
      at b = record p { ready = b }

      go : (b : Bool) → IsDeleted id (t.row_at p.server) (delete_row db e id (at b))
      go false = inl refl
      go true =
          done-IsDeleted id p
            (record (at true) { server = (db.exec e.delete (int id ∷ []) p.server).1 })
            (db.exec e.delete (int id ∷ []) p.server).0 (t.exec_delete id p.server)
            (t.exec_delete_count id p.server) (t.exec_refused e.delete (int id ∷ []) p.server)
