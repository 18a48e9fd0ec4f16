-- ===== src/Repo/Batch/Atomic.antt =====
-- `PatchStudents` and its copies are atomic: what they leave in the table and of the transaction, by
-- how they end.
use student_system_go.Common.{
  ◌≡◌, refl, ◌∙◌, ◌⊎◌, inl, inr, String, Bool, true, false, Option, none, some, List, [], ◌∷◌,
  if◌then◌else◌,
}
use student_system_go.Common.Int.{ℤ}
use student_system_go.Go.{Result, ok, err, panic, ⊤, Call, ◌>>◌}
use student_system_go.Reflect.{Value}
use student_system_go.Reflect.Json.{Update, lookup, as_string}
use student_system_go.Reflect.Patch.{Patched, patched, mismatch, panicked, patch_checked}
use student_system_go.Common.Text.{atoi}
use student_system_go.Sql.{Sql, Done, done, refused, Pool, connect_db}
use student_system_go.Sql.Laws.{IsTable}
use student_system_go.Entity.{Entity, Columns}
use student_system_go.Repo.{Found, found, absent, broken, connect}
use student_system_go.Repo.Batch.{
  Round, next, leave, continue, abort, begin, commit, tx_exec, after_update, patch_found,
  patch_read, patch_id, patch_id_text, patch_round, patch_rounds, patch_rows,
}

abbrev pub commit_failed : String
commit_failed = "Failed to commit transaction"

module _ {db : Sql} {R : Type 0} {e : Entity R} {c : Columns R} (t : IsTable db e c) where
  abbrev pub SameRows : Pool db → Pool db → Type 0
  SameRows p q = (j : ℤ) → t.row_at q.server j ≡ t.row_at p.server j

  abbrev pub IsClosed : Pool db → Type 0
  IsClosed p = t.in_tx p.server ≡ false

  -- A round leaves the committed rows alone; if the function returns there, the transaction is over.
  abbrev pub RoundKeeps : {A B : Type 0} → Pool db → Round A B × Pool db → Type 0
  RoundKeeps p (next a, q) = SameRows p q
  RoundKeeps p (leave panic, q) = SameRows p q
  RoundKeeps p (leave (ok b), q) = IsClosed q × SameRows p q
  RoundKeeps p (leave (err m), q) = IsClosed q × SameRows p q

  -- How a call that began at `p` may end. After a failed commit the rows are not known.
  abbrev pub Ends : {B : Type 0} → Pool db → Result B × Pool db → Type 0
  Ends p (ok b, q) = IsClosed q
  Ends p (err m, q) = IsClosed q × (SameRows p q ⊎ (m ≡ commit_failed))
  Ends p (panic, q) = SameRows p q

  abort-RoundKeeps :
      (A : Type 0) {B : Type 0} (r : Result B) (p : Pool db) → RoundKeeps {A = A} p (abort db r p)
  abort-RoundKeeps A (ok b) p = (t.rollback_in_tx p.server, t.rollback_rows p.server)
  abort-RoundKeeps A (err m) p = (t.rollback_in_tx p.server, t.rollback_rows p.server)
  abort-RoundKeeps A panic p = t.rollback_rows p.server

  after_update-RoundKeeps :
      (q : String) (args : List Value) (p : Pool db)
      → RoundKeeps p (after_update db e (tx_exec db q args p))
  after_update-RoundKeeps q args p = go (db.tx_exec q args p.server).0 (t.tx_rows q args p.server)
    where
      moved : Pool db
      moved = record p { server = (db.tx_exec q args p.server).1 }

      go : (d : Done) → SameRows p moved → RoundKeeps p (after_update db e (d, moved))
      go (done n l) same = same
      go (refused cause) same =
          (t.rollback_in_tx moved.server, λ j. t.rollback_rows moved.server j ∙ same j)

  patch_found-RoundKeeps : (x : Patched R) (p : Pool db) → RoundKeeps p (patch_found db e x p)
  patch_found-RoundKeeps (patched r) p = after_update-RoundKeeps e.tx_update (e.tx_update_args r) p
  patch_found-RoundKeeps mismatch p = abort-RoundKeeps ⊤ (ok tt) p
  patch_found-RoundKeeps panicked p = λ j. refl

  patch_read-RoundKeeps :
      (u : Update) (x : Found R) (p : Pool db) → RoundKeeps p (patch_read db e u x p)
  patch_read-RoundKeeps u (found r) p = patch_found-RoundKeeps (patch_checked e.fields u r) p
  patch_read-RoundKeeps u absent p = abort-RoundKeeps ⊤ {B = ⊤} (err e.messages.not_found) p
  patch_read-RoundKeeps u broken p = abort-RoundKeeps ⊤ {B = ⊤} (err e.messages.retrieve_failed) p

  patch_id-RoundKeeps :
      (u : Update) (o : Option ℤ) (p : Pool db) → RoundKeeps p (patch_id db e u o p)
  patch_id-RoundKeeps u none p = abort-RoundKeeps ⊤ {B = ⊤} (err e.messages.invalid_id) p
  patch_id-RoundKeeps u (some id) p = patch_read-RoundKeeps u _ p

  patch_id_text-RoundKeeps :
      (u : Update) (o : Option String) (p : Pool db) → RoundKeeps p (patch_id_text db e u o p)
  patch_id_text-RoundKeeps u none p = abort-RoundKeeps ⊤ {B = ⊤} (err e.messages.missing_id) p
  patch_id_text-RoundKeeps u (some text) p = patch_id-RoundKeeps u (atoi text) p

  pub patch_round-RoundKeeps : (u : Update) (p : Pool db) → RoundKeeps p (patch_round db e u p)
  unfolding patch_round
  patch_round-RoundKeeps u p = patch_id_text-RoundKeeps u (as_string (lookup "id" u)) p

  pub commit-Ends : (p : Pool db) → Ends p (commit db p)
  commit-Ends p = go (db.commit p.server).0 (t.commit_in_tx p.server)
    where
      closed : Pool db
      closed = record p { server = (db.commit p.server).1 }

      go : (b : Bool) → IsClosed closed → Ends p (if b then ok tt else err commit_failed, closed)
      go true h = h
      go false h = (h, inr refl)

  Ends-SameRows :
      {B : Type 0} (p q : Pool db) (x : Result B × Pool db) → SameRows p q → Ends q x → Ends p x
  Ends-SameRows p q (ok b, z) h k = k
  Ends-SameRows p q (err m, z) h (closed, inl same) = (closed, inl (λ j. same j ∙ h j))
  Ends-SameRows p q (err m, z) h (closed, inr failed) = (closed, inr failed)
  Ends-SameRows p q (panic, z) h k = λ j. k j ∙ h j

  continue-Ends :
      {A B : Type 0} (k : A → Pool db → Result B × Pool db) (p : Pool db) (x : Round A B × Pool db)
      → RoundKeeps p x
      → ((a : A) (q : Pool db) → Ends q (k a q))
      → Ends p (continue db k x)
  continue-Ends k p (next a, q) h later = Ends-SameRows p q _ h (later a q)
  continue-Ends k p (leave (ok b), q) h later = h.0
  continue-Ends k p (leave (err m), q) h later = (h.0, inl h.1)
  continue-Ends k p (leave panic, q) h later = h

  patch_rounds-Ends : (us : List Update) (p : Pool db) → Ends p (patch_rounds db e us p)
  unfolding patch_rounds
  patch_rounds-Ends [] p = commit-Ends p
  patch_rounds-Ends (u ∷ us) p =
      continue-Ends (λ a. patch_rounds db e us) p _ (patch_round-RoundKeeps u p)
        (λ a q. patch_rounds-Ends us q)

  pub connect-Ends :
      {B : Type 0} (k : Call (Pool db) B) (p : Pool db)
      → IsClosed p
      → Ends p (k p)
      → Ends p ((connect db >> k) p)
  unfolding connect_db
  connect-Ends k p h after = go p.ready after
    where
      at : Bool → Pool db
      at b = record p { ready = b }

      go : (b : Bool) → Ends (at b) (k (at b)) → Ends (at b) ((connect db >> k) (at b))
      go true rest = rest
      go false rest = (h, inl (λ j. refl))

  pub begin-Ends :
      {B : Type 0} (k : Call (Pool db) B) (p : Pool db)
      → IsClosed p
      → ((q : Pool db) → SameRows p q → Ends q (k q))
      → Ends p ((begin db >> k) p)
  begin-Ends {B} k p h after = go (db.begin p.server).0 (t.begin_in_tx p.server h)
    where
      started : Pool db
      started = record p { server = (db.begin p.server).1 }

      same : SameRows p started
      same = t.begin_rows p.server

      first : Bool → Call (Pool db) ⊤
      first b _ = (if b then ok tt else err "Failed to start transaction", started)

      go : (b : Bool) → t.in_tx started.server ≡ b → Ends {B = B} p ((first b >> k) p)
      go true opened = Ends-SameRows p started _ same (after started same)
      go false closed = (closed, inl same)

  -- A bulk patch that was called outside a transaction ends outside one, unless it panics. If it
  -- returns an error, or panics, no committed row has changed; after a failed commit alone the rows
  -- are not known.
  pub patch_rows-Ends :
      (us : List Update) (p : Pool db) → IsClosed p → Ends p (patch_rows db e us p)
  unfolding patch_rows
  patch_rows-Ends us p h =
      connect-Ends (begin db >> patch_rounds db e us) p h
        (begin-Ends (patch_rounds db e us) p h (λ q same. patch_rounds-Ends us q))
