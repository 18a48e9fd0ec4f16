-- ===== src/Accounts/Reset.antt =====
-- The reset of a password: who can make it, what it writes, and that a token works once.
use mathlib.Core.Path.{fun_ext, subst}
use student_system_go.Common.{
  ℕ, ◌≡◌, refl, sym, ap, inl, inr, String, Bool, true, false, Option, some, List, [], ◌∷◌,
  Option-cases, if◌then◌else◌,
}
use student_system_go.Common.Int.{ℤ}
use student_system_go.Go.{Result, ok, err, panic, ⊤, Call, pure, gets, ◌>>=◌, ◌>>◌}
use student_system_go.Reflect.{Value, int, text}
use student_system_go.Models.{Exec}
use student_system_go.Codes.{Bytes}
use student_system_go.Codes.Hex
use student_system_go.Passwords.Verified.{hash_password-ne-panic}
use student_system_go.Passwords.{Argon2, hash_password}
use student_system_go.Sql.{Sql, Row, row, no_rows, failed, Done, done, refused, Pool}
use student_system_go.Sql.Laws.{write_at}
use student_system_go.Repo.{scan_row, not_refused}
use student_system_go.Accounts.{
  Clock, Draw, select, scan_id_and_text, select_by_code, reset_query, invalid_code, store_password,
  store_hash, reset_found, reset_bytes, reset_password_db_handler,
}
use student_system_go.Accounts.Laws.{with_new_password, Holds, IsAccounts}

module _ {db : Sql} (laws : IsAccounts db) (clock : Clock) (sha256 : Bytes → Bytes)
    (argon2 : Argon2) (draw : Draw clock) where
  abbrev pub code_of : Bytes → String
  code_of bytes = Hex.encode (sha256 bytes)

  abbrev pub time_of : String
  time_of = clock.rfc3339 draw.now

  -- What a reset that succeeds did, from the pool `p` to the pool `q`.
  pub record Changed (token new : String) (p q : Pool db) : Type 0 where
    pub bytes : Bytes
    pub id : ℤ
    pub e : Exec
    pub hash : String
    pub token_bytes : Hex.decode token ≡ some bytes
    pub here : laws.row_at p.server id ≡ some e
    pub holds : Holds laws.is_later (code_of bytes) time_of e
    pub hashed : hash_password argon2 new draw.salt ≡ ok hash
    pub wrote :
        laws.row_at q.server ≡ write_at id (with_new_password hash time_of) (laws.row_at p.server)
    pub is_ready : q.ready ≡ true

  -- How a reset with `token` may end, if it begins with the pool `p`.
  pub data ResetEnds (token new : String) (p : Pool db) : Result ⊤ × Pool db → Type 0 where
    panicked : p.ready ≡ false → ResetEnds token new p (panic, p)
    unchanged :
        (message : String) (q : Pool db)
        → laws.row_at q.server ≡ laws.row_at p.server
        → ResetEnds token new p (err message, q)
    changed : (q : Pool db) → Changed token new p q → ResetEnds token new p (ok tt, q)

  pub ResetEnds-Changed :
      (token new : String) (p q : Pool db) (x : Result ⊤ × Pool db)
      → ResetEnds token new p x
      → x ≡ (ok tt, q)
      → Changed token new p q
  ResetEnds-Changed token new p q _ (panicked h) e = cc
  ResetEnds-Changed token new p q _ (unchanged message r h) e = cc
  ResetEnds-Changed token new p q _ (changed r c) e =
      subst (Changed token new p) (ap (λ (y : Result ⊤ × Pool db). y.1) e) c

  module _ (token new : String) (p : Pool db) (bytes : Bytes)
      (token_bytes : Hex.decode token ≡ some bytes) (is_ready : p.ready ≡ true) where
    module _ (id : ℤ) (e : Exec) (here : laws.row_at p.server id ≡ some e)
        (holds : Holds laws.is_later (code_of bytes) time_of e) where
      store_password-ResetEnds :
          (hash : String)
          → hash_password argon2 new draw.salt ≡ ok hash
          → ResetEnds token new p (store_password db clock sha256 draw hash id p)
      store_password-ResetEnds hash hashed =
          go (db.exec reset_query args p.server).0 (laws.exec_reset hash time_of id p.server)
            (laws.exec_refused reset_query args p.server)
        where
          args : List Value
          args = text hash ∷ text time_of ∷ int id ∷ []

          moved : Pool db
          moved = record p { server = (db.exec reset_query args p.server).1 }

          go :
              (d : Done)
              → ((n : Option ℕ) (l : Option ℤ)
                  → d ≡ done n l
                  → (j : ℤ)
                  → laws.row_at moved.server j
                    ≡ write_at id (with_new_password hash time_of) (laws.row_at p.server) j)
              → ((cause : String)
                  → d ≡ refused cause
                  → (j : ℤ) → laws.row_at moved.server j ≡ laws.row_at p.server j)
              → ResetEnds token new p
                  ((not_refused db d (λ cause. "Internal error") >> pure tt) moved)
          go (done n l) wrote kept = changed moved (record {
            bytes = bytes;
            id = id;
            e = e;
            hash = hash;
            token_bytes = token_bytes;
            here = here;
            holds = holds;
            hashed = hashed;
            wrote = fun_ext (wrote n l refl);
            is_ready = is_ready;
          })
          go (refused cause) wrote kept =
              unchanged "Internal error" moved (fun_ext (kept cause refl))

      store_hash-ResetEnds :
          (r : Result String)
          → hash_password argon2 new draw.salt ≡ r
          → ResetEnds token new p (store_hash db clock sha256 draw r id p)
      store_hash-ResetEnds (ok hash) h = store_password-ResetEnds hash h
      store_hash-ResetEnds (err cause) h = unchanged "Internal error" p refl
      store_hash-ResetEnds panic h = absurd (hash_password-ne-panic argon2 new draw.salt h)

    reset_row-ResetEnds :
        (vs : List Value)
        → db.query_row select_by_code (text (code_of bytes) ∷ text time_of ∷ []) p.server ≡ row vs
        → ResetEnds token new p
            (reset_found db clock sha256 argon2 draw new (scan_row scan_id_and_text (row vs)) p)
    unfolding reset_found hash_password
    reset_row-ResetEnds vs read =
        let (id, e, values, here, holds) =
          laws.select_by_code_row (code_of bytes) time_of p.server vs read in
        subst
          (λ x.
            ResetEnds token new p
              (reset_found db clock sha256 argon2 draw new (scan_row scan_id_and_text (row x)) p))
          (sym values)
          (store_hash-ResetEnds id e here holds (hash_password argon2 new draw.salt) refl)

    reset_found-ResetEnds :
        (r : Row)
        → db.query_row select_by_code (text (code_of bytes) ∷ text time_of ∷ []) p.server ≡ r
        → ResetEnds token new p
            (reset_found db clock sha256 argon2 draw new (scan_row scan_id_and_text r) p)
    unfolding reset_found
    reset_found-ResetEnds (row vs) read = reset_row-ResetEnds vs read
    reset_found-ResetEnds no_rows read = unchanged invalid_code p refl
    reset_found-ResetEnds failed read = unchanged invalid_code p refl

  reset_bytes-ResetEnds :
      (token new : String) (p : Pool db) (bytes : Bytes)
      → Hex.decode token ≡ some bytes
      → ResetEnds token new p (reset_bytes db clock sha256 argon2 draw new bytes p)
  unfolding reset_bytes reset_found
  reset_bytes-ResetEnds token new p bytes h = go p.ready refl
    where
      rest : Call (Pool db) ⊤
      rest = do
        result ←
            gets
              (select db select_by_code (text (code_of bytes) ∷ text time_of ∷ []) scan_id_and_text)
        reset_found db clock sha256 argon2 draw new result

      go :
          (b : Bool)
          → p.ready ≡ b
          → ResetEnds token new p
              (((λ (q : Pool db). if b then (ok tt, q) else (panic, q)) >> rest) p)
      go true is_ready =
          reset_found-ResetEnds token new p bytes h is_ready
            (db.query_row select_by_code (text (code_of bytes) ∷ text time_of ∷ []) p.server) refl
      go false closed = panicked closed

  -- A reset changes a password only for a token whose hash is the code of a row and whose time is not
  -- over. It then writes the new hash into this row, clears the code, and leaves the other rows alone.
  -- Otherwise it returns an error, or panics where the pool is not open, and changes no row.
  pub reset_password_db_handler-ResetEnds :
      (token new : String) (p : Pool db)
      → ResetEnds token new p (reset_password_db_handler db clock sha256 argon2 draw token new p)
  unfolding reset_password_db_handler
  reset_password_db_handler-ResetEnds token new p = elim (Option-cases (Hex.decode token)) [
    | inl bad ↦ rw bad (unchanged "Internal error" p refl)
    | inr (bytes, good) ↦ rw good (reset_bytes-ResetEnds token new p bytes good)
  ]
