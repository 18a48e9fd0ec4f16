-- ===== src/Repo/Batch/DeleteRounds.antt =====
-- The loop of `DeleteStudents` and its copy, in the open transaction.
use mathlib.Core.Path.{fun_ext, subst}
use mathlib.Core.List.{append-nil}
use student_system_go.Common.{
  ℕ, ◌≡◌, ◌≢◌, ◌<◌, refl, ◌∙◌, sym, ap, ◌⊎◌, inl, inr, Bool, true, false, Option, none, some, List,
  [], ◌∷◌, ◌++◌, append_assoc, arith, ltb, Option-cases, if◌then◌else◌,
}
use student_system_go.Common.Int.{ℤ}
use student_system_go.Common.Text.{◌<>◌}
use student_system_go.Common.Decimal.{itoa}
use student_system_go.Go.{Result, ok, err, panic, ⊤, Call, ◌>>◌}
use student_system_go.Reflect.{int}
use student_system_go.Sql.{Sql, Done, done, refused, Pool}
use student_system_go.Sql.Laws.{View, delete_at, count_at, IsTable}
use student_system_go.Entity.{Entity, Columns}
use student_system_go.Repo.Batch.{
  Round, next, leave, continue, abort, commit, after_delete, delete_round, not_empty, delete_rounds,
}
use student_system_go.Repo.Batch.Atomic.{commit_failed, SameRows, IsClosed}

abbrev pub delete_all : {R : Type 0} → List ℤ → View R → View R
delete_all [] v = v
delete_all (id ∷ ids) v = delete_all ids (delete_at id v)

-- Each row is there when its turn comes: the ids are those of rows, and none occurs twice.
abbrev pub ArePresent : {R : Type 0} → List ℤ → View R → Type 0
ArePresent [] v = Unit
ArePresent {R} (id ∷ ids) v = ((r : R) × (v id ≡ some r)) × ArePresent ids (delete_at id v)

present_of_count :
    {R : Type 0} (id : ℤ) (v : View R) → 0 < count_at id v → (r : R) × (v id ≡ some r)
present_of_count id v h = elim (Option-cases (v id)) [
  | inl missing ↦ absurd (ground arith)
  | inr found ↦ found
]

append-cons-ne-nil : (xs : List ℤ) (y : ℤ) (ys : List ℤ) → xs ++ (y ∷ ys) ≢ []
append-cons-ne-nil [] y ys h = cc
append-cons-ne-nil (x ∷ xs) y ys h = cc

module _ {db : Sql} {R : Type 0} {e : Entity R} {c : Columns R} (t : IsTable db e c) where
  abbrev RoundDeletes : ℤ → List ℤ → View R → Round (List ℤ) (List ℤ) × Pool db → Type 0
  RoundDeletes id deleted w (next ds, q) =
      (ds ≡ deleted ++ id ∷ []) × (0 < count_at id w) × (t.pending q.server ≡ delete_at id w)
  RoundDeletes id deleted w (leave (err m), q) = IsClosed t q
  RoundDeletes id deleted w (leave _, q) = ⊥

  abbrev Rounds : Pool db → ℤ → List ℤ → Round (List ℤ) (List ℤ) × Pool db → Type 0
  Rounds p id deleted x = SameRows t p x.1 × RoundDeletes id deleted (t.pending p.server) x

  delete_round-Rounds :
      (id : ℤ) (deleted : List ℤ) (p : Pool db)
      → Rounds p id deleted (delete_round db e id deleted p)
  unfolding delete_round
  delete_round-Rounds id deleted p =
      go (db.tx_exec e.delete (int id ∷ []) p.server).0 (t.tx_delete id p.server)
        (t.tx_delete_count id p.server)
    where
      moved : Pool db
      moved = record p { server = (db.tx_exec e.delete (int id ∷ []) p.server).1 }

      same : SameRows t p moved
      same = t.tx_rows e.delete (int id ∷ []) p.server

      undone : SameRows t p (record moved { server = db.rollback moved.server })
      undone j = t.rollback_rows moved.server j ∙ same j

      counted :
          (n : ℕ)
          → t.pending moved.server ≡ delete_at id (t.pending p.server)
          → n ≡ count_at id (t.pending p.server)
          → (b : Bool) → ltb n 1 ≡ b
          → Rounds p id deleted (
              if b
              then abort db
                  (err (e.messages.absent <> itoa id <> " not found, does not exist!!"))
                  moved
              else (next (deleted ++ id ∷ []), moved))
      counted n gone count true few = (undone, t.rollback_in_tx moved.server)
      counted n gone count false many = (same, (refl, ground arith, gone))

      go :
          (d : Done)
          → ((n : Option ℕ) (l : Option ℤ)
              → d ≡ done n l
              → (j : ℤ) → t.pending moved.server j ≡ delete_at id (t.pending p.server) j)
          → ((n : ℕ) (l : Option ℤ) → d ≡ done (some n) l → n ≡ count_at id (t.pending p.server))
          → Rounds p id deleted (after_delete db e id deleted (d, moved))
      go (refused cause) gone count = (undone, t.rollback_in_tx moved.server)
      go (done none l) gone count = (undone, t.rollback_in_tx moved.server)
      go (done (some n) l) gone count =
          counted n (fun_ext (gone (some n) l refl)) (count n l refl) (ltb n 1) refl

  -- What the loop does from a state in which `v` is committed and `w` is pending.
  abbrev pub Deletes : List ℤ → List ℤ → View R → View R → Result (List ℤ) × Pool db → Type 0
  Deletes ids deleted v w (ok ds, q) =
      IsClosed t q
      × (ds ≡ deleted ++ ids)
      × ArePresent ids w
      × (t.row_at q.server ≡ delete_all ids w)
  Deletes ids deleted v w (err m, q) =
      IsClosed t q
      × ((t.row_at q.server ≡ v)
          ⊎ ((m ≡ commit_failed) ⊎ ((deleted ++ ids ≡ []) × (t.row_at q.server ≡ w))))
  Deletes ids deleted v w (panic, q) = ⊥

  commit-Deletes :
      (deleted : List ℤ) (p : Pool db)
      → Deletes [] deleted
          (t.row_at p.server)
          (t.pending p.server)
          ((commit db >> not_empty db e deleted) p)
  commit-Deletes deleted p = go (db.commit p.server).0 (t.commit_done p.server) deleted
    where
      closed : Pool db
      closed = record p { server = (db.commit p.server).1 }

      first : Bool → Call (Pool db) ⊤
      first b _ = (if b then ok tt else err commit_failed, closed)

      go :
          (b : Bool)
          → (b ≡ true → (j : ℤ) → t.row_at closed.server j ≡ t.pending p.server j)
          → (ds : List ℤ)
          → Deletes [] ds
              (t.row_at p.server)
              (t.pending p.server)
              ((first b >> not_empty db e ds) p)
      go false law ds = (t.commit_in_tx p.server, inr (inl refl))
      go true law [] = (t.commit_in_tx p.server, inr (inr (refl, fun_ext (law refl))))
      go true law (d ∷ ds) =
          (t.commit_in_tx p.server, sym (append-nil (d ∷ ds)), tt, fun_ext (law refl))

  Deletes-cons :
      (id : ℤ) (ids deleted ds : List ℤ) (v w : View R) (x : Result (List ℤ) × Pool db)
      → ds ≡ deleted ++ id ∷ []
      → 0 < count_at id w
      → Deletes ids ds v (delete_at id w) x
      → Deletes (id ∷ ids) deleted v w x
  Deletes-cons id ids deleted ds v w (ok out, q) grown here (closed, same, later, rows) = (
    closed,
    same ∙ ap (λ xs. xs ++ ids) grown ∙ append_assoc deleted (id ∷ []) ids,
    (present_of_count id w here, later),
    rows,
  )
  Deletes-cons id ids deleted ds v w (err m, q) grown here (closed, inl same) = (closed, inl same)
  Deletes-cons id ids deleted ds v w (err m, q) grown here (closed, inr (inl failed)) =
      (closed, inr (inl failed))
  Deletes-cons id ids deleted ds v w (err m, q) grown here (closed, inr (inr (empty, same))) =
      absurd (
        append-cons-ne-nil deleted id ids
          (sym (ap (λ xs. xs ++ ids) grown ∙ append_assoc deleted (id ∷ []) ids) ∙ empty))
  Deletes-cons id ids deleted ds v w (panic, q) grown here h = h

  continue-Deletes :
      (id : ℤ) (ids deleted : List ℤ) (k : List ℤ → Pool db → Result (List ℤ) × Pool db)
      (p : Pool db) (x : Round (List ℤ) (List ℤ) × Pool db)
      → Rounds p id deleted x
      → ((ds : List ℤ) (q : Pool db)
          → Deletes ids ds (t.row_at q.server) (t.pending q.server) (k ds q))
      → Deletes (id ∷ ids) deleted (t.row_at p.server) (t.pending p.server) (continue db k x)
  continue-Deletes id ids deleted k p (next ds, q) (same, (grown, here, gone)) later =
      Deletes-cons id ids deleted ds (t.row_at p.server) (t.pending p.server) (k ds q) grown here (
        subst (λ w. Deletes ids ds (t.row_at p.server) w (k ds q)) gone
          (subst (λ v. Deletes ids ds v (t.pending q.server) (k ds q)) (fun_ext same) (later ds q)))
  continue-Deletes id ids deleted k p (leave (err m), q) (same, closed) later =
      (closed, inl (fun_ext same))
  continue-Deletes id ids deleted k p (leave (ok ds), q) (same, never) later = absurd never
  continue-Deletes id ids deleted k p (leave panic, q) (same, never) later = absurd never

  pub delete_rounds-Deletes :
      (ids deleted : List ℤ) (p : Pool db)
      → Deletes ids deleted
          (t.row_at p.server)
          (t.pending p.server)
          (delete_rounds db e ids deleted p)
  unfolding delete_rounds
  delete_rounds-Deletes [] deleted p = commit-Deletes deleted p
  delete_rounds-Deletes (id ∷ ids) deleted p =
      continue-Deletes id ids deleted (delete_rounds db e ids) p _
        (delete_round-Rounds id deleted p) (λ ds q. delete_rounds-Deletes ids ds q)
