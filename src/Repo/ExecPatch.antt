-- ===== src/Repo/ExecPatch.antt =====
-- What `PatchOneExec` of internal/repository/sqlconnect/execs_crud.go does to the columns that it does not
-- read: it selects five columns and writes seven.
use student_system_go.Common.{◌≡◌, ◌≢◌, refl, ap, ◌∙◌, inl, inr, String, some, [], ◌∷◌, All}
use student_system_go.Common.Int.{ℤ, ==ℤ_refl}
use student_system_go.Go.{Result, ok, err, panic}
use student_system_go.Models.{Exec, exec_fields}
use student_system_go.Reflect.Json.{Update}
use student_system_go.Reflect.Frame.{is_named-false, Frames, patch_unchecked-Leaves}
use student_system_go.Sql.{Sql, Pool}
use student_system_go.Sql.Laws.{View, write_at, IsTable}
use student_system_go.Entity.Execs.{exec_entity, exec_columns}
use student_system_go.Repo.{patch_row}
use student_system_go.Repo.Single.{SingleEnds, IsPatchedRow, patch_row-SingleEnds}

role-Frames : (k : String) → "role" ≢ k → Frames (λ (e : Exec). e.role) k exec_fields
role-Frames k h = (
  inr (λ v r. refl),
  (
    inr (λ v r. refl),
    (
      inr (λ v r. refl),
      (
        inr (λ v r. refl),
        (
          inr (λ v r. refl),
          (
            inr (λ v r. refl),
            (
              inr (λ v r. refl),
              (
                inr (λ v r. refl),
                (
                  inr (λ v r. refl),
                  (
                    inr (λ v r. refl),
                    (inr (λ v r. refl), (inl (is_named-false "role" k h), (inr (λ v r. refl), tt))),
                  ),
                ),
              ),
            ),
          ),
        ),
      ),
    ),
  ),
)

id-Frames : (k : String) → "id" ≢ k → Frames (λ (e : Exec). e.id) k exec_fields
id-Frames k h = (
  inl (is_named-false "id" k h),
  (
    inr (λ v r. refl),
    (
      inr (λ v r. refl),
      (
        inr (λ v r. refl),
        (
          inr (λ v r. refl),
          (
            inr (λ v r. refl),
            (
              inr (λ v r. refl),
              (
                inr (λ v r. refl),
                (
                  inr (λ v r. refl),
                  (
                    inr (λ v r. refl),
                    (inr (λ v r. refl), (inr (λ v r. refl), (inr (λ v r. refl), tt))),
                  ),
                ),
              ),
            ),
          ),
        ),
      ),
    ),
  ),
)

-- Neither key is in the request.
abbrev pub NoneOf : String → String → Update → Type 0
NoneOf a b u = All (λ m. (a ≢ m.0) × (b ≢ m.0)) u

NoneOf-role :
    (u : Update) → NoneOf "role" "id" u → All (λ m. Frames (λ (e : Exec). e.role) m.0 exec_fields) u
NoneOf-role [] h = tt
NoneOf-role ((k, v) ∷ u) ((no_role, no_id), rest) = (role-Frames k no_role, NoneOf-role u rest)

NoneOf-id :
    (u : Update) → NoneOf "role" "id" u → All (λ m. Frames (λ (e : Exec). e.id) m.0 exec_fields) u
NoneOf-id [] h = tt
NoneOf-id ((k, v) ∷ u) ((no_role, no_id), rest) = (id-Frames k no_id, NoneOf-id u rest)

module _ {db : Sql} (t : IsTable db exec_entity exec_columns) where
  -- What is left of the role of the exec `id`.
  abbrev pub HasNoRole : ℤ → View Exec → Type 0
  HasNoRole id v = (x : Exec) × (v id ≡ some x) × (x.role ≡ "")

  patched-HasNoRole :
      (id : ℤ) (u : Update) (new : Exec) (v w : View Exec)
      → NoneOf "role" "id" u
      → IsPatchedRow t id u v new w
      → HasNoRole id w
  patched-HasNoRole id u new v w absent (old, here, keyed, patches, written) =
      let role : new.role ≡ "" =
        patch_unchecked-Leaves (λ (e : Exec). e.role) exec_fields u
          (exec_columns.patch_selected old) new (NoneOf-role u absent) patches in
      let same_id : new.id ≡ id =
        patch_unchecked-Leaves (λ (e : Exec). e.id) exec_fields u (exec_columns.patch_selected old)
          new (NoneOf-id u absent) patches
        ∙ keyed in
      (
        exec_columns.written new old,
        ap (λ (f : View Exec). f id) written
            ∙ ap (λ i. write_at i (exec_columns.written new) v id) same_id
            ∙ (rw (==ℤ_refl id, here)),
        role,
      )

  -- A single PATCH of an exec that names neither the role nor the id clears the role: when it is
  -- answered with success, the row of the exec has the empty role.
  pub patch_row-HasNoRole :
      (id : ℤ) (u : Update) (p : Pool db) (new : Exec)
      → NoneOf "role" "id" u
      → (patch_row db exec_entity id u p).0 ≡ ok new
      → HasNoRole id (t.row_at (patch_row db exec_entity id u p).1.server)
  patch_row-HasNoRole id u p new absent h =
      go (patch_row db exec_entity id u p).0 h (patch_row-SingleEnds t id u p)
    where
      q : Pool db
      q = (patch_row db exec_entity id u p).1

      go :
          (r : Result Exec)
          → r ≡ ok new
          → SingleEnds t (t.row_at p.server) (IsPatchedRow t id u (t.row_at p.server)) (r, q)
          → HasNoRole id (t.row_at q.server)
      go (ok x) e ends =
          patched-HasNoRole id u x (t.row_at p.server) (t.row_at q.server) absent ends
      go (err m) e ends = cc
      go panic e ends = cc
