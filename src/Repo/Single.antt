-- ===== src/Repo/Single.antt =====
-- `UpdateStudent` and `PatchOneStudent` with their copies: what each leaves in the table, by how it
-- ends.
pub mod Removed
use mathlib.Core.Path.{fun_ext, subst}
use student_system_go.Common.{
  ℕ, ◌==◌, ◌≡◌, refl, ◌∙◌, sym, ap, ◌⊎◌, inl, inr, String, Bool, true, false, Option, none, some,
  [], ◌∷◌, arith, Option-cases, Bool-cases, if◌then◌else◌,
}
use student_system_go.Common.Int.{ℤ, ◌==ℤ◌, ==ℤ_iff}
use student_system_go.Go.{Result, ok, err, panic, ⊤, Call, pure, raise, gets, ◌>>=◌, ◌>>◌}
use student_system_go.Reflect.{int}
use student_system_go.Reflect.Json.{Update}
use student_system_go.Reflect.Patch.{Patched, patched, mismatch, panicked, patch_unchecked}
use student_system_go.Sql.{Sql, Row, row, no_rows, failed, Done, done, refused, Pool, connect_db}
use student_system_go.Sql.Laws.{View, write_at, delete_at, count_at, IsTable}
use student_system_go.Entity.{Entity, Columns}
use student_system_go.Repo.{
  Found, found, absent, broken, scan_row, find, or_raise, or_panic, or_none, connect, not_refused,
  write_row, update_row, patch_row, delete_row,
}

module _ {db : Sql} {R : Type 0} {e : Entity R} {c : Columns R} (t : IsTable db e c) where
  -- How a call that began with the rows `v` may end, if it returns values that satisfy `P` and else
  -- leaves the rows as they are.
  abbrev pub SingleEnds :
      {A : Type 0} → View R → (A → View R → Type 0) → Result A × Pool db → Type 0
  SingleEnds v P (ok a, q) = P a (t.row_at q.server)
  SingleEnds v P (err m, q) = t.row_at q.server ≡ v
  SingleEnds v P (panic, q) = t.row_at q.server ≡ v

  connect-SingleEnds :
      {A : Type 0} (P : A → View R → Type 0) (k : Call (Pool db) A) (p : Pool db)
      → SingleEnds (t.row_at p.server) P (k p)
      → SingleEnds (t.row_at p.server) P ((connect db >> k) p)
  unfolding connect_db
  connect-SingleEnds P k p after = go p.ready after
    where
      at : Bool → Pool db
      at b = record p { ready = b }

      go :
          (b : Bool)
          → SingleEnds (t.row_at p.server) P (k (at b))
          → SingleEnds (t.row_at p.server) P ((connect db >> k) (at b))
      go true rest = rest
      go false rest = refl

  -- Running the UPDATE of `new` and returning it.
  write-SingleEnds :
      (P : R → View R → Type 0) (new : R) (p : Pool db)
      → P new (write_at (e.id new) (c.written new) (t.row_at p.server))
      → SingleEnds (t.row_at p.server) P (write_row db e new p)
  write-SingleEnds P new p h =
      go (db.exec e.update (e.update_args new) p.server).0 (t.exec_update new p.server)
        (t.exec_refused e.update (e.update_args new) p.server)
    where
      moved : Pool db
      moved = record p { server = (db.exec e.update (e.update_args new) p.server).1 }

      go :
          (d : Done)
          → ((n : Option ℕ) (l : Option ℤ)
              → d ≡ done n l
              → (j : ℤ)
              → t.row_at moved.server j ≡ write_at (e.id new) (c.written new) (t.row_at p.server) j)
          → ((cause : String)
              → d ≡ refused cause
              → (j : ℤ) → t.row_at moved.server j ≡ t.row_at p.server j)
          → SingleEnds
              (t.row_at p.server)
              P
              ((not_refused db d (λ cause. e.messages.update_failed) >> pure new) moved)
      go (done n l) law none_moved = subst (P new) (sym (fun_ext (law n l refl))) h
      go (refused cause) law none_moved = fun_ext (none_moved cause refl)

  -- The row that was selected, then the rest.
  require-SingleEnds :
      {A : Type 0} (P : A → View R → Type 0) (x : Found R) (missing broke : String)
      (k : R → Call (Pool db) A) (p : Pool db)
      → ((r : R) → x ≡ found r → SingleEnds (t.row_at p.server) P (k r p))
      → SingleEnds (t.row_at p.server) P ((or_raise x missing broke >>= k) p)
  require-SingleEnds P (found r) missing broke k p later = later r refl
  require-SingleEnds P absent missing broke k p later = refl
  require-SingleEnds P broken missing broke k p later = refl

  find-found :
      (id : ℤ) (p : Pool db) (r : R)
      → find db e e.select e.scan id p ≡ found r
      → (old : R) × (t.row_at p.server id ≡ some old) × (e.id old ≡ id) × (r ≡ c.selected old)
  find-found id p r = go (db.query_row e.select (int id ∷ []) p.server) refl
    where
      go :
          (x : Row)
          → db.query_row e.select (int id ∷ []) p.server ≡ x
          → scan_row e.scan x ≡ found r
          → (old : R) × (t.row_at p.server id ≡ some old) × (e.id old ≡ id) × (r ≡ c.selected old)
      go (row vs) q h =
          let (old, here, keyed, scans) = t.select_row id p.server vs q in
          (old, here, keyed, cc (rw scans at h))
      go no_rows q h = cc
      go failed q h = cc

  find-found_for_patch :
      (id : ℤ) (p : Pool db) (r : R)
      → find db e e.patch_select e.patch_scan id p ≡ found r
      → (old : R) × (t.row_at p.server id ≡ some old) × (e.id old ≡ id) × (r ≡ c.patch_selected old)
  find-found_for_patch id p r = go (db.query_row e.patch_select (int id ∷ []) p.server) refl
    where
      go :
          (x : Row)
          → db.query_row e.patch_select (int id ∷ []) p.server ≡ x
          → scan_row e.patch_scan x ≡ found r
          → (old : R) × (t.row_at p.server id ≡ some old)
            × (e.id old ≡ id)
            × (r ≡ c.patch_selected old)
      go (row vs) q h =
          let (old, here, keyed, scans) = t.patch_select_row id p.server vs q in
          (old, here, keyed, cc (rw scans at h))
      go no_rows q h = cc
      go failed q h = cc

  -- What a PUT that returns `new` has done to the rows `v`.
  abbrev pub IsUpdated : ℤ → R → View R → R → View R → Type 0
  IsUpdated id r v new w =
      (old : R) × (v id ≡ some old)
      × (e.id old ≡ id)
      × (new ≡ e.with_id (e.id (c.selected old)) r)
      × (w ≡ write_at (e.id new) (c.written new) v)

  update_row-SingleEnds :
      (id : ℤ) (r : R) (p : Pool db)
      → SingleEnds (t.row_at p.server) (IsUpdated id r (t.row_at p.server)) (update_row db e id r p)
  unfolding update_row
  update_row-SingleEnds id r p =
      let P = IsUpdated id r (t.row_at p.server) in
      connect-SingleEnds P
        (do
          result ← gets (find db e e.select e.scan id)
          old ← or_raise result e.messages.not_found e.messages.retrieve_failed
          write_row db e (e.with_id (e.id old) r))
        p
        (require-SingleEnds P (find db e e.select e.scan id p) e.messages.not_found
          e.messages.retrieve_failed (λ old. write_row db e (e.with_id (e.id old) r)) p
          λ r' f.
            let (old, here, keyed, alike) = find-found id p r' f in
            write-SingleEnds P (e.with_id (e.id r') r) p
              (old, here, keyed, ap (λ x. e.with_id (e.id x) r) alike, refl))

  -- What a single PATCH that returns `new` has done to the rows `v`.
  abbrev pub IsPatchedRow : ℤ → Update → View R → R → View R → Type 0
  IsPatchedRow id u v new w =
      (old : R) × (v id ≡ some old)
      × (e.id old ≡ id)
      × (patch_unchecked e.fields u (c.patch_selected old) ≡ patched new)
      × (w ≡ write_at (e.id new) (c.written new) v)

  patched-SingleEnds :
      {A : Type 0} (P : A → View R → Type 0) (x : Patched R) (k : R → Call (Pool db) A)
      (p : Pool db)
      → ((new : R) → x ≡ patched new → SingleEnds (t.row_at p.server) P (k new p))
      → SingleEnds (t.row_at p.server) P ((or_panic x >>= k) p)
  patched-SingleEnds P (patched new) k p later = later new refl
  patched-SingleEnds P mismatch k p later = refl
  patched-SingleEnds P panicked k p later = refl

  pub patch_row-SingleEnds :
      (id : ℤ) (u : Update) (p : Pool db)
      → SingleEnds
          (t.row_at p.server)
          (IsPatchedRow id u (t.row_at p.server))
          (patch_row db e id u p)
  unfolding patch_row
  patch_row-SingleEnds id u p =
      let P = IsPatchedRow id u (t.row_at p.server) in
      connect-SingleEnds P
        (do
          result ← gets (find db e e.patch_select e.patch_scan id)
          old ← or_raise result e.messages.not_found e.messages.retrieve_failed
          new ← or_panic (patch_unchecked e.fields u old)
          write_row db e new)
        p
        (require-SingleEnds P (find db e e.patch_select e.patch_scan id p) e.messages.not_found
          e.messages.retrieve_failed
          (λ old. or_panic (patch_unchecked e.fields u old) >>= write_row db e) p
          λ r f. patched-SingleEnds P (patch_unchecked e.fields u r) (write_row db e) p λ new h.
            let (old, here, keyed, alike) = find-found_for_patch id p r f in
            write-SingleEnds P new p
              (old, here, keyed, ap (patch_unchecked e.fields u) (sym alike) ∙ h, refl))

  -- If a PUT of one row returns a row, that is the row of the request with the id of the row that was
  -- there, and its columns are written at that id. If a PATCH of one row returns a row, it is the
  -- selected columns of the row that was there with the members of the request copied in, and its
  -- columns are written at the id that it then has. If either fails or panics, no row has changed.
  pub single_writes-SingleEnds :
      (id : ℤ) (r : R) (u : Update) (p : Pool db)
      → SingleEnds (t.row_at p.server) (IsUpdated id r (t.row_at p.server)) (update_row db e id r p)
        × SingleEnds
            (t.row_at p.server)
            (IsPatchedRow id u (t.row_at p.server))
            (patch_row db e id u p)
  single_writes-SingleEnds id r u p = (update_row-SingleEnds id r p, patch_row-SingleEnds id u p)
