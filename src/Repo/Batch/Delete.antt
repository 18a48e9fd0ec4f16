-- ===== src/Repo/Batch/Delete.antt =====
-- `DeleteStudents` and its copy: every row of the request is deleted, or none.
use mathlib.Core.Path.{fun_ext, subst}
use student_system_go.Common.{
  ◌≡◌, refl, ◌∙◌, ◌⊎◌, inl, inr, Bool, true, false, List, [], if◌then◌else◌,
}
use student_system_go.Common.Int.{ℤ}
use student_system_go.Go.{Result, ok, err, panic, ⊤, Call, ◌>>◌}
use student_system_go.Sql.{Sql, Pool, connect_db}
use student_system_go.Sql.Laws.{View, IsTable}
use student_system_go.Entity.{Entity, Columns}
use student_system_go.Repo.{connect}
use student_system_go.Repo.Batch.{begin, prepare_delete, delete_rounds, delete_rows}
use student_system_go.Repo.Batch.Atomic.{commit_failed, IsClosed}
use student_system_go.Repo.Batch.DeleteRounds.{
  delete_all, ArePresent, Deletes, delete_rounds-Deletes,
}

module _ {db : Sql} {R : Type 0} {e : Entity R} {c : Columns R} (t : IsTable db e c) where
  -- How a bulk delete that began with the rows `v` may end.
  abbrev pub DeleteEnds : List ℤ → View R → Result (List ℤ) × Pool db → Type 0
  DeleteEnds ids v (ok ds, q) =
      IsClosed t q × (ds ≡ ids) × ArePresent ids v × (t.row_at q.server ≡ delete_all ids v)
  DeleteEnds ids v (err m, q) = IsClosed t q × ((t.row_at q.server ≡ v) ⊎ (m ≡ commit_failed))
  DeleteEnds ids v (panic, q) = ⊥

  DeleteEnds-Deletes :
      (ids : List ℤ) (v : View R) (x : Result (List ℤ) × Pool db)
      → Deletes t ids [] v v x
      → DeleteEnds ids v x
  DeleteEnds-Deletes ids v (ok ds, q) h = h
  DeleteEnds-Deletes ids v (err m, q) (closed, inl same) = (closed, inl same)
  DeleteEnds-Deletes ids v (err m, q) (closed, inr (inl failed)) = (closed, inr failed)
  DeleteEnds-Deletes ids v (err m, q) (closed, inr (inr (empty, same))) = (closed, inl same)
  DeleteEnds-Deletes ids v (panic, q) h = h

  delete_rounds-DeleteEnds :
      (ids : List ℤ) (v : View R) (q : Pool db)
      → t.row_at q.server ≡ v
      → t.pending q.server ≡ v
      → DeleteEnds ids v (delete_rounds db e ids [] q)
  delete_rounds-DeleteEnds ids v q rows pend =
      let x = delete_rounds db e ids [] q in
      DeleteEnds-Deletes ids v x (
        subst (λ w. Deletes t ids [] v w x) pend
          (subst (λ u. Deletes t ids [] u (t.pending q.server) x) rows
            (delete_rounds-Deletes t ids [] q)))

  prepare-DeleteEnds :
      (ids : List ℤ) (v : View R) (k : Call (Pool db) (List ℤ)) (p : Pool db)
      → t.row_at p.server ≡ v
      → DeleteEnds ids v (k p)
      → DeleteEnds ids v ((prepare_delete db e >> k) p)
  prepare-DeleteEnds ids v k p same after = go (db.prepare e.delete p.server)
    where
      first : Bool → Call (Pool db) ⊤
      first b _ = if b then (ok tt, p) else (
        err "Failed to prepare delete statement",
        record p { server = db.rollback p.server },
      )

      go : (b : Bool) → DeleteEnds ids v ((first b >> k) p)
      go true = after
      go false = (t.rollback_in_tx p.server, inl (fun_ext (t.rollback_rows p.server) ∙ same))

  begin-DeleteEnds :
      (ids : List ℤ) (k : Call (Pool db) (List ℤ)) (p : Pool db)
      → IsClosed t p
      → ((q : Pool db)
          → t.row_at q.server ≡ t.row_at p.server
          → t.pending q.server ≡ t.row_at p.server
          → DeleteEnds ids (t.row_at p.server) (k q))
      → DeleteEnds ids (t.row_at p.server) ((begin db >> k) p)
  begin-DeleteEnds ids k p h later =
      go (db.begin p.server).0 (t.begin_pending p.server) (t.begin_in_tx p.server h)
    where
      started : Pool db
      started = record p { server = (db.begin p.server).1 }

      rows : t.row_at started.server ≡ t.row_at p.server
      rows = fun_ext (t.begin_rows p.server)

      first : Bool → Call (Pool db) ⊤
      first b _ = (if b then ok tt else err "Failed to start transaction", started)

      go :
          (b : Bool)
          → (b ≡ true → (j : ℤ) → t.pending started.server j ≡ t.row_at p.server j)
          → t.in_tx started.server ≡ b
          → DeleteEnds ids (t.row_at p.server) ((first b >> k) p)
      go true law opened = later started rows (fun_ext (law refl))
      go false law closed = (closed, inl rows)

  connect-DeleteEnds :
      (ids : List ℤ) (k : Call (Pool db) (List ℤ)) (p : Pool db)
      → IsClosed t p
      → DeleteEnds ids (t.row_at p.server) (k p)
      → DeleteEnds ids (t.row_at p.server) ((connect db >> k) p)
  unfolding connect_db
  connect-DeleteEnds ids k p h after = go p.ready after
    where
      at : Bool → Pool db
      at b = record p { ready = b }

      go :
          (b : Bool)
          → DeleteEnds ids (t.row_at p.server) (k (at b))
          → DeleteEnds ids (t.row_at p.server) ((connect db >> k) (at b))
      go true rest = rest
      go false rest = (h, inl refl)

  -- A bulk delete outside a transaction ends outside one and never panics. On success it returns the
  -- ids of the request, each of which was the id of a row and none of which is listed twice, and
  -- exactly those rows are gone. On an error no row has changed, unless the commit failed.
  pub delete_rows-DeleteEnds :
      (ids : List ℤ) (p : Pool db)
      → IsClosed t p
      → DeleteEnds ids (t.row_at p.server) (delete_rows db e ids p)
  unfolding delete_rows
  delete_rows-DeleteEnds ids p h =
      connect-DeleteEnds ids (begin db >> (prepare_delete db e >> delete_rounds db e ids [])) p h (
        begin-DeleteEnds ids (prepare_delete db e >> delete_rounds db e ids []) p h (λ q rows pend.
          prepare-DeleteEnds ids (t.row_at p.server) (delete_rounds db e ids []) q rows
            (delete_rounds-DeleteEnds ids (t.row_at p.server) q rows pend)))
