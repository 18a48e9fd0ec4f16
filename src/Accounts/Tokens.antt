-- ===== src/Accounts/Tokens.antt =====
-- A token from its preparation to its use: it resets the password, and does so once.
use mathlib.Core.Bool.{false≢true}
use mathlib.Core.Path.{subst}
use student_system_go.Common.{
  ◌≡◌, ◌≢◌, refl, ◌∙◌, sym, ap, inl, inr, String, Bool, true, Option, none, some, List, [], ◌∷◌,
  Bool-cases, if◌then◌else◌,
}
use student_system_go.Common.Int.{ℤ, ◌==ℤ◌, ==ℤ_iff, ==ℤ_refl}
use student_system_go.Go.{Result, ok, err, panic, ⊤, Call, pure, gets, ◌>>=◌, ◌>>◌}
use student_system_go.Reflect.{Value, int, text}
use student_system_go.Models.{Exec}
use student_system_go.Codes.{Bytes, IsBytes}
use student_system_go.Codes.Hex
use student_system_go.Passwords.{Argon2, hash_password}
use student_system_go.Passwords.Verified.{joined, hash_password-joined}
use student_system_go.Sql.{Sql, Row, row, no_rows, failed, Done, done, refused, Pool}
use student_system_go.Sql.Laws.{View}
use student_system_go.Repo.{scan_row, or_none, not_refused}
use student_system_go.Accounts.{
  Clock, Draw, ResetTokenInfo, select, scan_id_and_text, select_by_code, reset_query, invalid_code,
  store_password, store_hash, reset_found, reset_bytes, reset_password_db_handler,
  prepare_reset_token,
}
use student_system_go.Accounts.Laws.{with_code, with_new_password, Holds, IsAccounts}
use student_system_go.Accounts.Reset.{
  Changed, ResetEnds-Changed, reset_password_db_handler-ResetEnds,
}
use student_system_go.Accounts.Prepare.{
  Prepared, PrepareEnds-Prepared, prepare_reset_token-PrepareEnds,
}

module _ {db : Sql} (laws : IsAccounts db) (clock : Clock) (sha256 : Bytes → Bytes)
    (argon2 : Argon2) where
  abbrev code_of : Bytes → String
  code_of bytes = Hex.encode (sha256 bytes)

  abbrev code_in : Option Exec → Option String
  code_in none = none
  code_in (some e) = e.password_reset_code

  -- The code stands in one row at most.
  abbrev pub IsOnly : String → Pool db → Type 0
  IsOnly code p =
      (i j : ℤ) (a b : Exec)
      → laws.row_at p.server i ≡ some a
      → laws.row_at p.server j ≡ some b
      → a.password_reset_code ≡ some code
      → b.password_reset_code ≡ some code
      → i ≡ j

  -- The read of a reset, on a pool that is open.
  reset-reads :
      (draw : Draw clock) (token new : String) (bytes : Bytes) (p : Pool db)
      → Hex.decode token ≡ some bytes
      → p.ready ≡ true
      → reset_password_db_handler db clock sha256 argon2 draw token new p
        ≡ reset_found db clock sha256 argon2 draw new
            (scan_row scan_id_and_text (
              db.query_row select_by_code
                (text (code_of bytes) ∷ text (clock.rfc3339 draw.now) ∷ [])
                p.server))
            p
  unfolding reset_password_db_handler reset_bytes reset_found
  reset-reads draw token new bytes p good open_pool =
      ap
        (λ (o : Option Bytes).
          (or_none o "Internal error" >>= reset_bytes db clock sha256 argon2 draw new) p)
        good
      ∙ ap (λ (b : Bool). ((λ (q : Pool db). if b then (ok tt, q) else (panic, q)) >> rest) p)
          open_pool
    where
      rest : Call (Pool db) ⊤
      rest = do
        result ← gets (
            select db select_by_code (text (code_of bytes) ∷ text (clock.rfc3339 draw.now) ∷ [])
              scan_id_and_text)
        reset_found db clock sha256 argon2 draw new result

  module _ (draw : Draw clock) (token new : String) {p q : Pool db}
      (c : Changed laws clock sha256 argon2 draw token new p q)
      (only : IsOnly (code_of c.bytes) p) where
    spent :
        (now : String) (id : ℤ) (e : Exec)
        → laws.row_at q.server id ≡ some e
        → Holds laws.is_later (code_of c.bytes) now e
        → ⊥
    spent now id e here holds = elim (Bool-cases (id ==ℤ c.id)) [
      | inl at_id ↦
          let there : laws.row_at p.server id ≡ some c.e =
            ap (laws.row_at p.server) ((==ℤ_iff id c.id).0 at_id) ∙ c.here in
          let after : some e ≡ some (with_new_password c.hash (clock.rfc3339 draw.now) c.e) =
            sym here ∙ ap (λ (v : View Exec). v id) c.wrote ∙ (rw (at_id, there)) in
          let cleared : e.password_reset_code ≡ none = ap code_in after in
          cc (holds.has_code, cleared)
      | inr away ↦
          let there : laws.row_at p.server id ≡ some e =
            sym (ap (λ (v : View Exec). v id) c.wrote ∙ (rw away)) ∙ here in
          let at_id : id ≡ c.id = only id c.id e c.e there c.here holds.has_code c.holds.has_code in
          absurd (false≢true (sym away ∙ (==ℤ_iff id c.id).1 at_id))
    ]

    refuses :
        (later : Draw clock) (next : String) (r : Row)
        → db.query_row select_by_code
            (text (code_of c.bytes) ∷ text (clock.rfc3339 later.now) ∷ [])
            q.server
          ≡ r
        → (reset_found db clock sha256 argon2 later next (scan_row scan_id_and_text r) q).0
          ≡ err invalid_code
    unfolding reset_found
    refuses later next (row vs) read =
        let (id, e, values, here, holds) =
          laws.select_by_code_row (code_of c.bytes) (clock.rfc3339 later.now) q.server vs read in
        absurd (spent (clock.rfc3339 later.now) id e here holds)
    refuses later next no_rows read = refl
    refuses later next failed read = refl

  -- After a reset that succeeded, the same token resets nothing more: the next reset with it fails as
  -- invalid, at whatever time and with whatever password, if the code of the token stood in one row.
  pub reset_password_db_handler-twice :
      (draw later : Draw clock) (token new next : String) (bytes : Bytes) (p q : Pool db)
      → Hex.decode token ≡ some bytes
      → IsOnly (code_of bytes) p
      → reset_password_db_handler db clock sha256 argon2 draw token new p ≡ (ok tt, q)
      → (reset_password_db_handler db clock sha256 argon2 later token next q).0 ≡ err invalid_code
  reset_password_db_handler-twice draw later token new next bytes p q good only first =
      ap (λ (x : Result ⊤ × Pool db). x.0)
        (reset-reads later token next c.bytes q c.token_bytes c.is_ready)
      ∙ refuses draw token new c (subst (λ b. IsOnly (code_of b) p) same_bytes only) later next _
          refl
    where
      c : Changed laws clock sha256 argon2 draw token new p q
      c =
          ResetEnds-Changed laws clock sha256 argon2 draw token new p q _
            (reset_password_db_handler-ResetEnds laws clock sha256 argon2 draw token new p) first

      same_bytes : bytes ≡ c.bytes
      same_bytes = cc (good, c.token_bytes)

  module _ (later : Draw clock) (new : String) (salt : Bytes) (given : new ≢ "")
      (salted : later.salt ≡ some salt) (q : Pool db)
      (answers : (code now : String)
        → db.query_row select_by_code (text code ∷ text now ∷ []) q.server ≢ failed)
      (accepts : (hash now : String) (id : ℤ) (cause : String)
        → (db.exec reset_query (text hash ∷ text now ∷ int id ∷ []) q.server).0
          ≢ refused cause) where
    stores : (hash : String) (id : ℤ) → (store_password db clock sha256 later hash id q).0 ≡ ok tt
    stores hash id =
        go (db.exec reset_query args q.server).0 (accepts hash (clock.rfc3339 later.now) id)
      where
        args : List Value
        args = text hash ∷ text (clock.rfc3339 later.now) ∷ int id ∷ []

        moved : Pool db
        moved = record q { server = (db.exec reset_query args q.server).1 }

        go :
            (d : Done)
            → ((cause : String) → d ≢ refused cause)
            → ((not_refused db d (λ cause. "Internal error") >> pure tt) moved).0 ≡ ok tt
        go (done n l) h = refl
        go (refused cause) h = absurd (h cause refl)

    found_resets :
        (code : String)
        → ((id : ℤ) × (e : Exec) × (laws.row_at q.server id ≡ some e)
            × Holds laws.is_later code (clock.rfc3339 later.now) e)
        → (r : Row)
        → db.query_row select_by_code (text code ∷ text (clock.rfc3339 later.now) ∷ []) q.server ≡ r
        → (reset_found db clock sha256 argon2 later new (scan_row scan_id_and_text r) q).0 ≡ ok tt
    unfolding reset_found
    found_resets code there (row vs) read =
        let (id, e, values, here, holds) =
          laws.select_by_code_row code (clock.rfc3339 later.now) q.server vs read in
        ap
          (λ (x : List Value).
            (reset_found db clock sha256 argon2 later new (scan_row scan_id_and_text (row x)) q).0)
          values
        ∙ ap (λ (r : Result String). (store_hash db clock sha256 later r id q).0)
            (ap (hash_password argon2 new) salted ∙ hash_password-joined argon2 new salt given)
        ∙ stores (joined salt (argon2 new salt)) id
    found_resets code (id, e, here, holds) no_rows read =
        absurd
          (laws.select_by_code_absent code (clock.rfc3339 later.now) q.server read id e here holds)
    found_resets code there failed read = absurd (answers code (clock.rfc3339 later.now) read)

  -- A token that was prepared resets the password: if the reset comes before the token's time is over,
  -- with a password that is not empty, and the machine and the database do what they are asked, it
  -- succeeds.
  pub prepare_reset_token-reset_password_db_handler :
      (draw later : Draw clock) (minutes email new : String) (salt : Bytes) (p q : Pool db)
      (info : ResetTokenInfo clock)
      → ((b : Bytes) → draw.token ≡ some b → IsBytes b)
      → prepare_reset_token db clock sha256 draw minutes email p ≡ (ok info, q)
      → laws.is_later (clock.date_time info.expires_at) (clock.rfc3339 later.now) ≡ true
      → new ≢ ""
      → later.salt ≡ some salt
      → ((code now : String)
          → db.query_row select_by_code (text code ∷ text now ∷ []) q.server ≢ failed)
      → ((hash now : String) (id : ℤ) (cause : String)
          → (db.exec reset_query (text hash ∷ text now ∷ int id ∷ []) q.server).0 ≢ refused cause)
      → (reset_password_db_handler db clock sha256 argon2 later info.token new q).0 ≡ ok tt
  prepare_reset_token-reset_password_db_handler draw later minutes email new salt p q info
        bytes_drawn run unexpired given salted answers accepts =
      ap (λ (x : Result ⊤ × Pool db). x.0)
        (reset-reads later info.token new c.bytes q decoded c.is_ready)
      ∙ found_resets later new salt given salted q answers accepts (code_of c.bytes)
          (
            c.id,
            with_code (code_of c.bytes) (clock.date_time info.expires_at) c.e,
            here,
            record {
              expires = clock.date_time info.expires_at;
              has_code = refl;
              has_expiry = refl;
              unexpired = unexpired;
            },
          )
          (db.query_row select_by_code
            (text (code_of c.bytes) ∷ text (clock.rfc3339 later.now) ∷ []) q.server)
          refl
    where
      c : Prepared laws clock sha256 draw email p info q
      c =
          PrepareEnds-Prepared laws clock sha256 draw email p info q _
            (prepare_reset_token-PrepareEnds laws clock sha256 draw minutes email p) run

      decoded : Hex.decode info.token ≡ some c.bytes
      decoded = ap Hex.decode c.token ∙ Hex.decode-encode c.bytes (bytes_drawn c.bytes c.drawn)

      here :
          laws.row_at q.server c.id
          ≡ some (with_code (code_of c.bytes) (clock.date_time info.expires_at) c.e)
      here = ap (λ (v : View Exec). v c.id) c.wrote ∙ (rw (==ℤ_refl c.id, c.here))
