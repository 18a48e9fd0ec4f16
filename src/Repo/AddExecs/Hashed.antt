-- ===== src/Repo/AddExecs/Hashed.antt =====
-- No password goes into the table as it is.
use student_system_go.Common.{
  ℕ, suc, ◌≡◌, refl, String, Bool, true, false, Option, none, some, List, [], ◌∷◌, if◌then◌else◌,
}
use student_system_go.Common.Int.{ℤ}
use student_system_go.Go.{Result, ok, err, panic, ⊤, Call, pure, ◌>>=◌, ◌>>◌}
use student_system_go.Reflect.{generate_insert_query, get_struct_values}
use student_system_go.Models.{Exec, exec_fields}
use student_system_go.Codes.{Bytes}
use student_system_go.Passwords.{Argon2, hash_password}
use student_system_go.Passwords.Verified.{hash_password-ne-panic}
use student_system_go.Sql.{Sql, Pool, Done, done, refused, connect_db}
use student_system_go.Repo.{not_refused, or_none}
use student_system_go.Repo.AddExecs.{insert_exec, insert_execs, add_execs_db_handler}

module _ (db : Sql) (argon2 : Argon2) (salt_at : ℕ → Option Bytes) where
  abbrev pub insert_result : Exec → db.S → Done × db.S
  unfolding generate_insert_query get_struct_values
  insert_result e =
      db.exec (generate_insert_query "execs" exec_fields) (get_struct_values exec_fields e)

  -- The `i`-th exec, stored with the hash of its password in the place of the password, and as it is
  -- returned, with this hash and the new id.
  pub data Stored (i : ℕ) (e : Exec) (s : db.S) : Exec → db.S → Type 0 where
    stored :
        (hash : String) (n : Option ℕ) (id : ℤ)
        → hash_password argon2 e.password (salt_at i) ≡ ok hash
        → (insert_result (record e { password = hash }) s).0 ≡ done n (some id)
        → Stored i e s
            (record e { password = hash; id = id })
            (insert_result (record e { password = hash }) s).1

  pub data Inserted : ℕ → List Exec → db.S → List Exec → db.S → Type 0 where
    nothing : (i : ℕ) (s : db.S) → Inserted i [] s [] s
    inserted :
        (i : ℕ) (e : Exec) (es : List Exec) (s t u : db.S) (a : Exec) (added : List Exec)
        → Stored i e s a t
        → Inserted (suc i) es t added u
        → Inserted i (e ∷ es) s (a ∷ added) u

  abbrev ExecEnds : ℕ → Exec → Pool db → Result Exec × Pool db → Type 0
  ExecEnds i e p (ok a, q) = Stored i e p.server a q.server
  ExecEnds i e p (err message, q) = Unit
  ExecEnds i e p (panic, q) = ⊥

  -- How a run over the execs from the `i`-th may end.
  abbrev pub AddEnds : ℕ → List Exec → Pool db → Result (List Exec) × Pool db → Type 0
  AddEnds i es p (ok added, q) = Inserted i es p.server added q.server
  AddEnds i es p (err message, q) = Unit
  AddEnds i es p (panic, q) = ⊥

  insert_exec-ExecEnds :
      (i : ℕ) (e : Exec) (p : Pool db) (hashed : Result String)
      → hash_password argon2 e.password (salt_at i) ≡ hashed
      → ExecEnds i e p (insert_exec db argon2 salt_at e hashed p)
  unfolding insert_exec
  insert_exec-ExecEnds i e p (err cause) hashed = tt
  insert_exec-ExecEnds i e p panic hashed =
      hash_password-ne-panic argon2 e.password (salt_at i) hashed
  insert_exec-ExecEnds i e p (ok hash) hashed =
      go (insert_result (record e { password = hash }) p.server).0 refl
    where
      moved : Pool db
      moved = record p { server = (insert_result (record e { password = hash }) p.server).1 }

      go :
          (d : Done)
          → (insert_result (record e { password = hash }) p.server).0 ≡ d
          → ExecEnds i e p (
              (not_refused db d (λ cause. "Failed to insert exec") >>= λ x.
              or_none x.1 "Failed to retrieve last insert id" >>= λ id.
              pure (record e { password = hash; id = id }))
                moved)
      go (done n none) ran = tt
      go (done n (some id)) ran = stored hash n id hashed ran
      go (refused cause) ran = tt

  insert_execs-AddEnds :
      (i : ℕ) (es : List Exec) (p : Pool db)
      → AddEnds i es p (insert_execs db argon2 salt_at i es p)
  unfolding insert_execs
  insert_execs-AddEnds i [] p = nothing i p.server
  insert_execs-AddEnds i (e ∷ es) p =
      row (insert_exec db argon2 salt_at e (hash_password argon2 e.password (salt_at i)) p)
        (insert_exec-ExecEnds i e p (hash_password argon2 e.password (salt_at i)) refl)
        (λ q. insert_execs-AddEnds (suc i) es q)
    where
      whole :
          (a : Exec) (q : Pool db) (x : Result (List Exec) × Pool db)
          → Stored i e p.server a q.server
          → AddEnds (suc i) es q x
          → AddEnds i (e ∷ es) p (((λ (r : Pool db). x) >>= λ added. pure (a ∷ added)) q)
      whole a q (ok added, r) first rest =
          inserted i e es p.server q.server r.server a added first rest
      whole a q (err message, r) first rest = tt
      whole a q (panic, r) first rest = rest

      row :
          (x : Result Exec × Pool db)
          → ExecEnds i e p x
          → ((q : Pool db) → AddEnds (suc i) es q (insert_execs db argon2 salt_at (suc i) es q))
          → AddEnds i (e ∷ es) p (
              ((λ (r : Pool db). x) >>= λ a.
              insert_execs db argon2 salt_at (suc i) es >>= λ added. pure (a ∷ added))
                p)
      row (ok a, q) first rest =
          whole a q (insert_execs db argon2 salt_at (suc i) es q) first (rest q)
      row (err message, q) first rest = tt
      row (panic, q) first rest = first

  abbrev prepare_if : Bool → Call (Pool db) ⊤
  prepare_if b q = if b then (ok tt, q) else (err "Failed to prepare statement", q)

  prepared-AddEnds :
      (es : List Exec) (p : Pool db) (prepared : Bool)
      → AddEnds 0 es p ((prepare_if prepared >> insert_execs db argon2 salt_at 0 es) p)
  prepared-AddEnds es p true = insert_execs-AddEnds 0 es p
  prepared-AddEnds es p false = tt

  -- AddExecsDBHandler never panics. If it succeeds, it has inserted one row for each exec, in order, each
  -- with the hash of its password in the place of the password, and the execs that it returns carry
  -- these hashes and the ids of the rows.
  pub add_execs_db_handler-AddEnds :
      (es : List Exec) (p : Pool db) → AddEnds 0 es p (add_execs_db_handler db argon2 salt_at es p)
  unfolding add_execs_db_handler connect_db generate_insert_query
  add_execs_db_handler-AddEnds es p = go p.ready
    where
      query : String
      query = generate_insert_query "execs" exec_fields

      at : Bool → Pool db
      at b = record p { ready = b }

      go : (b : Bool) → AddEnds 0 es p (add_execs_db_handler db argon2 salt_at es (at b))
      go true = prepared-AddEnds es (at true) (db.prepare query p.server)
      go false = tt
