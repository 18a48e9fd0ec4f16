-- ===== src/Repo/Batch.antt =====
-- The operations on several rows inside one transaction: `PatchStudents`, `DeleteStudents` and their
-- copies. The rows of a bulk patch are read through the pool, outside the transaction.
pub mod Atomic
pub mod Replay
pub mod DeleteRounds
pub mod Delete
use student_system_go.Common.{
  ℕ, String, Bool, true, false, Option, none, some, List, [], ◌∷◌, ◌++◌, ◌==◌, ltb, if◌then◌else◌,
}
use student_system_go.Common.Int.{ℤ}
use student_system_go.Common.Text.{◌<>◌, atoi}
use student_system_go.Common.Decimal.{itoa}
use student_system_go.Go.{Result, ok, err, panic, ⊤, Call, pure, raise, gets, ◌>>=◌, ◌>>◌}
use student_system_go.Reflect.{Value, int}
use student_system_go.Reflect.Json.{Update, lookup, as_string}
use student_system_go.Reflect.Patch.{Patched, patched, mismatch, panicked, patch_checked}
use student_system_go.Sql.{Sql, Done, done, refused, Pool, connect_db}
use student_system_go.Entity.{Entity}
use student_system_go.Repo.{Found, found, absent, broken, find, connect}

-- How one round of a loop ends: the loop goes on, or the function returns or panics.
pub data Round (A B : Type 0) : Type 0 where
  next : A → Round A B
  leave : Result B → Round A B

module _ (db : Sql) where
  abbrev rollback : Pool db → Pool db
  rollback p = record p { server = db.rollback p.server }

  abbrev tx_exec : String → List Value → Pool db → Done × Pool db
  tx_exec q args p = let (d, s) = db.tx_exec q args p.server in (d, record p { server = s })

  -- `tx.Rollback()`, then the return
  abbrev pub abort : {A B : Type 0} → Result B → Pool db → Round A B × Pool db
  abort r p = (leave r, rollback p)

  abbrev pub continue :
      {A B : Type 0} → (A → Pool db → Result B × Pool db) → Round A B × Pool db → Result B × Pool db
  continue k (next a, p) = k a p
  continue k (leave r, p) = (r, p)

  -- `db.Begin()`
  abbrev pub begin : Call (Pool db) ⊤
  begin p =
      let (started, s) = db.begin p.server in
      (if started then ok tt else err "Failed to start transaction", record p { server = s })

  -- `tx.Commit()`
  abbrev pub commit : Call (Pool db) ⊤
  commit p =
      let (committed, s) = db.commit p.server in
      (if committed then ok tt else err "Failed to commit transaction", record p { server = s })

module _ (db : Sql) {R : Type 0} (e : Entity R) where
  abbrev after_update : Done × Pool db → Round ⊤ ⊤ × Pool db
  after_update (done n l, p) = (next tt, p)
  after_update (refused cause, p) = abort db (err e.messages.update_failed) p

  -- A value that does not convert returns the error of the last call, which is nil here: the function
  -- reports success. A panic leaves the transaction open.
  abbrev patch_found : Patched R → Pool db → Round ⊤ ⊤ × Pool db
  patch_found (patched r) p = after_update (tx_exec db e.tx_update (e.tx_update_args r) p)
  patch_found mismatch p = abort db (ok tt) p
  patch_found panicked p = (leave panic, p)

  abbrev patch_read : Update → Found R → Pool db → Round ⊤ ⊤ × Pool db
  patch_read u (found r) p = patch_found (patch_checked e.fields u r) p
  patch_read u absent p = abort db (err e.messages.not_found) p
  patch_read u broken p = abort db (err e.messages.retrieve_failed) p

  abbrev patch_id : Update → Option ℤ → Pool db → Round ⊤ ⊤ × Pool db
  patch_id u none p = abort db (err e.messages.invalid_id) p
  patch_id u (some id) p = patch_read u (find db e e.patch_select e.patch_scan id p) p

  abbrev patch_id_text : Update → Option String → Pool db → Round ⊤ ⊤ × Pool db
  patch_id_text u none p = abort db (err e.messages.missing_id) p
  patch_id_text u (some t) p = patch_id u (atoi t) p

  -- One round of the loop of `PatchStudents`.
  unfoldable pub patch_round : Update → Pool db → Round ⊤ ⊤ × Pool db
  unfolding lookup atoi patch_checked
  patch_round u p = patch_id_text u (as_string (lookup "id" u)) p

  unfoldable pub patch_rounds : List Update → Call (Pool db) ⊤
  unfolding patch_round
  patch_rounds [] p = commit db p
  patch_rounds (u ∷ us) p = continue db (λ a. patch_rounds us) (patch_round u p)

  -- `PatchStudents`
  unfoldable pub patch_rows : List Update → Call (Pool db) ⊤
  unfolding patch_rounds connect_db
  patch_rows us = do connect db; begin db; patch_rounds us

  abbrev prepare_delete : Call (Pool db) ⊤
  prepare_delete p =
      if db.prepare e.delete p.server
      then (ok tt, p)
      else (err "Failed to prepare delete statement", rollback db p)

  abbrev after_delete : ℤ → List ℤ → Done × Pool db → Round (List ℤ) (List ℤ) × Pool db
  after_delete id deleted (refused cause, p) =
      abort db (err (e.messages.delete_id_failed <> itoa id)) p
  after_delete id deleted (done none l, p) =
      abort db (err ("Failed to retrieve affected rows for ID " <> itoa id)) p
  after_delete id deleted (done (some n) l, p) =
      if ltb n 1
      then abort db (err (e.messages.absent <> itoa id <> " not found, does not exist!!")) p
      else (next (deleted ++ id ∷ []), p)

  -- One round of the loop of `DeleteStudents`.
  unfoldable pub delete_round : ℤ → List ℤ → Pool db → Round (List ℤ) (List ℤ) × Pool db
  unfolding itoa
  delete_round id deleted p = after_delete id deleted (tx_exec db e.delete (int id ∷ []) p)

  abbrev not_empty : List ℤ → Call (Pool db) (List ℤ)
  not_empty [] = raise e.messages.nothing_deleted
  not_empty ids = pure ids

  unfoldable pub delete_rounds : List ℤ → List ℤ → Call (Pool db) (List ℤ)
  unfolding delete_round
  delete_rounds [] deleted p = (commit db >> not_empty deleted) p
  delete_rounds (id ∷ ids) deleted p = continue db (delete_rounds ids) (delete_round id deleted p)

  -- `DeleteStudents`
  unfoldable pub delete_rows : List ℤ → Call (Pool db) (List ℤ)
  unfolding delete_rounds connect_db
  delete_rows ids = do connect db; begin db; prepare_delete; delete_rounds ids []
