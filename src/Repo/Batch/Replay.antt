-- ===== src/Repo/Batch/Replay.antt =====
-- What a bulk patch that reports success has written: each member is computed from the row that was
-- committed when the call began, and the writes are applied in order.
use mathlib.Core.Path.{fun_ext, subst}
use student_system_go.Common.{
  ℕ, ◌≡◌, refl, ◌∙◌, sym, ap, ◌⊎◌, inl, inr, String, Bool, true, false, Option, none, some, List,
  [], ◌∷◌, All, if◌then◌else◌,
}
use student_system_go.Common.Int.{ℤ}
use student_system_go.Common.Text.{atoi}
use student_system_go.Go.{Result, ok, err, panic, ⊤, Call, ◌>>◌}
use student_system_go.Reflect.{int}
use student_system_go.Reflect.Json.{Update, lookup, as_string}
use student_system_go.Reflect.Patch.{Patched, patched, mismatch, panicked, patch_checked}
use student_system_go.Sql.{Sql, Row, row, no_rows, failed, Done, done, refused, Pool, connect_db}
use student_system_go.Sql.Laws.{View, write_at, IsTable}
use student_system_go.Entity.{Entity, Columns}
use student_system_go.Repo.{Found, found, absent, broken, scan_row, find, connect}
use student_system_go.Repo.Batch.Atomic.{RoundKeeps, patch_round-RoundKeeps}
use student_system_go.Repo.Batch.{
  Round, next, leave, continue, begin, commit, after_update, patch_found, patch_read, patch_id,
  patch_id_text, patch_round, patch_rounds, patch_rows,
}

module _ {R : Type 0} (e : Entity R) (c : Columns R) (committed : View R) where
  abbrev change_row : Update → Option R → Patched R
  change_row u none = panicked
  change_row u (some r) = patch_checked e.fields u (c.patch_selected r)

  abbrev change_id : Update → Option ℤ → Patched R
  change_id u none = panicked
  change_id u (some id) = change_row u (committed id)

  abbrev change_id_text : Update → Option String → Patched R
  change_id_text u none = panicked
  change_id_text u (some text) = change_id u (atoi text)

  -- The new row that one member of the request asks for.
  abbrev pub change_of : Update → Patched R
  change_of u = change_id_text u (as_string (lookup "id" u))

  abbrev pub write_change : Patched R → View R → View R
  write_change (patched new) v = write_at (e.id new) (c.tx_written new) v
  write_change _ v = v

  abbrev pub replay : List Update → View R → View R
  replay [] v = v
  replay (u ∷ us) v = replay us (write_change (change_of u) v)

  abbrev pub IsPatched : Update → Type 0
  IsPatched u = (new : R) × (change_of u ≡ patched new)

  abbrev pub SomeMismatch : List Update → Type 0
  SomeMismatch [] = ⊥
  SomeMismatch (u ∷ us) = (change_of u ≡ mismatch) ⊎ SomeMismatch us

module _ {db : Sql} {R : Type 0} {e : Entity R} {c : Columns R} (t : IsTable db e c) where
  find-found :
      (id : ℤ) (p : Pool db) (r : R)
      → find db e e.patch_select e.patch_scan id p ≡ found r
      → (old : R) × (t.row_at p.server id ≡ some old) × (r ≡ c.patch_selected old)
  find-found id p r = go (db.query_row e.patch_select (int id ∷ []) p.server) refl
    where
      go :
          (x : Row)
          → db.query_row e.patch_select (int id ∷ []) p.server ≡ x
          → scan_row e.patch_scan x ≡ found r
          → (old : R) × (t.row_at p.server id ≡ some old) × (r ≡ c.patch_selected old)
      go (row vs) q h =
          let (old, here, same, scans) = t.patch_select_row id p.server vs q in
          (old, here, cc (rw (scans) at h))
      go no_rows q h = cc
      go failed q h = cc

  abbrev RoundWrites : {A B : Type 0} → View R → View R → Update → Round A B × Pool db → Type 0
  RoundWrites v w u (next a, q) =
      (new : R) × (change_of e c v u ≡ patched new)
      × (t.pending q.server ≡ write_at (e.id new) (c.tx_written new) w)
  RoundWrites v w u (leave (ok b), q) = change_of e c v u ≡ mismatch
  RoundWrites v w u (leave _, q) = Unit

  abbrev Writes : Update → Pool db → Round ⊤ ⊤ × Pool db → Type 0
  Writes u p x = RoundWrites (t.row_at p.server) (t.pending p.server) u x

  patch_found-Writes :
      (u : Update) (x : Patched R) (p : Pool db)
      → change_of e c (t.row_at p.server) u ≡ x
      → Writes u p (patch_found db e x p)
  patch_found-Writes u (patched new) p h =
      go (db.tx_exec e.tx_update (e.tx_update_args new) p.server).0 (t.tx_update new p.server)
    where
      moved : Pool db
      moved = record p { server = (db.tx_exec e.tx_update (e.tx_update_args new) p.server).1 }

      go :
          (d : Done)
          → ((n : Option ℕ) (l : Option ℤ)
              → d ≡ done n l
              → (j : ℤ)
              → t.pending moved.server j
                ≡ write_at (e.id new) (c.tx_written new) (t.pending p.server) j)
          → Writes u p (after_update db e (d, moved))
      go (done n l) law = (new, h, fun_ext (law n l refl))
      go (refused cause) law = tt
  patch_found-Writes u mismatch p h = h
  patch_found-Writes u panicked p h = tt

  patch_id-Writes :
      (u : Update) (o : Option ℤ) (p : Pool db)
      → change_of e c (t.row_at p.server) u ≡ change_id e c (t.row_at p.server) u o
      → Writes u p (patch_id db e u o p)
  patch_id-Writes u none p h = tt
  patch_id-Writes u (some id) p h = go (find db e e.patch_select e.patch_scan id p) refl
    where
      go :
          (x : Found R)
          → find db e e.patch_select e.patch_scan id p ≡ x
          → Writes u p (patch_read db e u x p)
      go (found r) f =
          let (old, here, same) = find-found id p r f in
          patch_found-Writes u (patch_checked e.fields u r) p (
            h
            ∙ ap (change_row e c (t.row_at p.server) u) here
            ∙ ap (patch_checked e.fields u) (sym same))
      go absent f = tt
      go broken f = tt

  patch_id_text-Writes :
      (u : Update) (o : Option String) (p : Pool db)
      → change_of e c (t.row_at p.server) u ≡ change_id_text e c (t.row_at p.server) u o
      → Writes u p (patch_id_text db e u o p)
  patch_id_text-Writes u none p h = tt
  patch_id_text-Writes u (some text) p h = patch_id-Writes u (atoi text) p h

  patch_round-Writes : (u : Update) (p : Pool db) → Writes u p (patch_round db e u p)
  unfolding patch_round
  patch_round-Writes u p = patch_id_text-Writes u (as_string (lookup "id" u)) p refl

  abbrev Replays : List Update → View R → View R → Result ⊤ × Pool db → Type 0
  Replays us v w (ok b, q) =
      (All (IsPatched e c v) us × (t.row_at q.server ≡ replay e c v us w))
      ⊎ (SomeMismatch e c v us × (t.row_at q.server ≡ v))
  Replays us v w _ = Unit

  commit-Replays : (p : Pool db) → Replays [] (t.row_at p.server) (t.pending p.server) (commit db p)
  commit-Replays p = go (db.commit p.server).0 (t.commit_done p.server)
    where
      closed : Pool db
      closed = record p { server = (db.commit p.server).1 }

      go :
          (b : Bool)
          → (b ≡ true → (j : ℤ) → t.row_at closed.server j ≡ t.pending p.server j)
          → Replays []
              (t.row_at p.server)
              (t.pending p.server)
              (if b then ok tt else err "Failed to commit transaction", closed)
      go true law = inl (tt, fun_ext (law refl))
      go false law = tt

  Replays-cons :
      (u : Update) (us : List Update) (v w : View R) (new : R) (x : Result ⊤ × Pool db)
      → change_of e c v u ≡ patched new
      → Replays us v (write_at (e.id new) (c.tx_written new) w) x
      → Replays (u ∷ us) v w x
  Replays-cons u us v w new (ok b, q) h (inl (all, same)) =
      inl (((new, h), all), same ∙ ap (λ k. replay e c v us (write_change e c v k w)) (sym h))
  Replays-cons u us v w new (ok b, q) h (inr (some_one, same)) = inr (inr some_one, same)
  Replays-cons u us v w new (err m, q) h _ = tt
  Replays-cons u us v w new (panic, q) h _ = tt

  continue-Replays :
      (u : Update) (us : List Update) (k : ⊤ → Pool db → Result ⊤ × Pool db) (p : Pool db)
      (x : Round ⊤ ⊤ × Pool db)
      → RoundKeeps t p x
      → Writes u p x
      → ((q : Pool db) → Replays us (t.row_at q.server) (t.pending q.server) (k tt q))
      → Replays (u ∷ us) (t.row_at p.server) (t.pending p.server) (continue db k x)
  continue-Replays u us k p (next tt, q) keeps (new, h, pend) later =
      Replays-cons u us (t.row_at p.server) (t.pending p.server) new (k tt q) h (
        subst (λ w. Replays us (t.row_at p.server) w (k tt q)) pend
          (subst (λ v. Replays us v (t.pending q.server) (k tt q)) (fun_ext keeps) (later q)))
  continue-Replays u us k p (leave (ok b), q) keeps h later = inr (inl h, fun_ext keeps.1)
  continue-Replays u us k p (leave (err m), q) keeps h later = tt
  continue-Replays u us k p (leave panic, q) keeps h later = tt

  patch_rounds-Replays :
      (us : List Update) (p : Pool db)
      → Replays us (t.row_at p.server) (t.pending p.server) (patch_rounds db e us p)
  unfolding patch_rounds
  patch_rounds-Replays [] p = commit-Replays p
  patch_rounds-Replays (u ∷ us) p =
      continue-Replays u us (λ a. patch_rounds db e us) p _ (patch_round-RoundKeeps t u p)
        (patch_round-Writes u p) (patch_rounds-Replays us)

  begin-Replays :
      (us : List Update) (k : Call (Pool db) ⊤) (p : Pool db)
      → ((q : Pool db) → Replays us (t.row_at q.server) (t.pending q.server) (k q))
      → Replays us (t.row_at p.server) (t.row_at p.server) ((begin db >> k) p)
  begin-Replays us k p later = go (db.begin p.server).0 (t.begin_pending p.server)
    where
      started : Pool db
      started = record p { server = (db.begin p.server).1 }

      rows : t.row_at started.server ≡ t.row_at p.server
      rows = fun_ext (t.begin_rows p.server)

      first : Bool → Call (Pool db) ⊤
      first b _ = (if b then ok tt else err "Failed to start transaction", started)

      go :
          (b : Bool)
          → (b ≡ true → (j : ℤ) → t.pending started.server j ≡ t.row_at p.server j)
          → Replays us (t.row_at p.server) (t.row_at p.server) ((first b >> k) p)
      go true law =
          subst (λ w. Replays us (t.row_at p.server) w (k started)) (fun_ext (law refl))
            (subst (λ v. Replays us v (t.pending started.server) (k started)) rows (later started))
      go false law = tt

  connect-Replays :
      (us : List Update) (v : View R) (k : Call (Pool db) ⊤) (p : Pool db)
      → Replays us v v (k p)
      → Replays us v v ((connect db >> k) p)
  unfolding connect_db
  connect-Replays us v k p after = go p.ready after
    where
      at : Bool → Pool db
      at b = record p { ready = b }

      go : (b : Bool) → Replays us v v (k (at b)) → Replays us v v ((connect db >> k) (at b))
      go true rest = rest
      go false rest = tt

  -- A bulk patch that returns without an error either wrote every member of the request in order,
  -- each computed from the row that was committed when the call began, or met a value of a type that
  -- does not convert, and then has written nothing.
  pub patch_rows-Replays :
      (us : List Update) (p q : Pool db)
      → patch_rows db e us p ≡ (ok tt, q)
      → (All (IsPatched e c (t.row_at p.server)) us
          × (t.row_at q.server ≡ replay e c (t.row_at p.server) us (t.row_at p.server)))
        ⊎ (SomeMismatch e c (t.row_at p.server) us × (t.row_at q.server ≡ t.row_at p.server))
  unfolding patch_rows
  patch_rows-Replays us p q h = subst (Replays us (t.row_at p.server) (t.row_at p.server)) h (
      connect-Replays us (t.row_at p.server) (begin db >> patch_rounds db e us) p
        (begin-Replays us (patch_rounds db e us) p (patch_rounds-Replays us)))
