-- ===== src/Accounts/Prepare.antt =====
-- The token of a reset: what is stored when it is prepared.
use mathlib.Core.Path.{fun_ext, subst}
use student_system_go.Common.{
  ℕ, ◌≡◌, refl, sym, String, Bool, true, false, Option, none, some, List, [], ◌∷◌, if◌then◌else◌,
}
use student_system_go.Common.Int.{ℤ}
use student_system_go.Common.Text.{atoi}
use student_system_go.Go.{Result, ok, err, Call, pure, gets, ◌>>=◌, ◌>>◌}
use student_system_go.Reflect.{Value, int, text}
use student_system_go.Models.{Exec}
use student_system_go.Codes.{Bytes}
use student_system_go.Codes.Hex
use student_system_go.Sql.{
  Sql, Row, row, no_rows, failed, Done, done, refused, Pool, not_initialised,
}
use student_system_go.Sql.Laws.{write_at}
use student_system_go.Repo.{scan_row, or_message, not_refused}
use student_system_go.Accounts.{
  Clock, Draw, ResetTokenInfo, select, scan_id_and_text, select_by_email, store_code,
  prepare_failed, store_token, prepare_drawn, prepare_found, prepare_reset_token,
}
use student_system_go.Accounts.Laws.{with_code, IsAccounts}

module _ {db : Sql} (laws : IsAccounts db) (clock : Clock) (sha256 : Bytes → Bytes)
    (draw : Draw clock) where
  -- What a preparation that succeeds did: the row of the address holds the hash of the token that is
  -- returned, until the time that is returned.
  pub record Prepared (email : String) (p : Pool db) (info : ResetTokenInfo clock) (q : Pool db)
      : Type 0 where
    pub bytes : Bytes
    pub id : ℤ
    pub e : Exec
    pub drawn : draw.token ≡ some bytes
    pub here : laws.row_at p.server id ≡ some e
    pub has_email : laws.collates e.email email ≡ true
    pub token : info.token ≡ Hex.encode bytes
    pub username : info.username ≡ e.username
    pub wrote :
        laws.row_at q.server
        ≡ write_at id
            (with_code (Hex.encode (sha256 bytes)) (clock.date_time info.expires_at))
            (laws.row_at p.server)
    pub is_ready : q.ready ≡ true

  pub data PrepareEnds (email : String) (p : Pool db)
      : Result (ResetTokenInfo clock) × Pool db → Type 0 where
    unchanged :
        (message : String) (q : Pool db)
        → laws.row_at q.server ≡ laws.row_at p.server
        → PrepareEnds email p (err message, q)
    prepared :
        (info : ResetTokenInfo clock) (q : Pool db)
        → Prepared email p info q
        → PrepareEnds email p (ok info, q)

  pub PrepareEnds-Prepared :
      (email : String) (p : Pool db) (info : ResetTokenInfo clock) (q : Pool db)
      (x : Result (ResetTokenInfo clock) × Pool db)
      → PrepareEnds email p x
      → x ≡ (ok info, q)
      → Prepared email p info q
  PrepareEnds-Prepared email p info q _ (unchanged message r h) e = cc
  PrepareEnds-Prepared email p info q _ (prepared i r h) e =
      let same_info : i ≡ info = cc in
      let same_pool : r ≡ q = cc in
      subst (λ j. Prepared email p j q) same_info (subst (Prepared email p i) same_pool h)

  module _ (email minutes : String) (p : Pool db) (is_ready : p.ready ≡ true) where
    module _ (id : ℤ) (e : Exec) (here : laws.row_at p.server id ≡ some e)
        (has_email : laws.collates e.email email ≡ true) where
      store_token-PrepareEnds :
          (expires : clock.Time) (bytes : Bytes)
          → draw.token ≡ some bytes
          → PrepareEnds email p (store_token db clock sha256 id e.username expires bytes p)
      unfolding store_token
      store_token-PrepareEnds expires bytes drawn =
          go (db.exec store_code args p.server).0
            (laws.exec_store_code code (clock.date_time expires) id p.server)
            (laws.exec_refused store_code args p.server)
        where
          code : String
          code = Hex.encode (sha256 bytes)

          args : List Value
          args = text code ∷ text (clock.date_time expires) ∷ int id ∷ []

          info : ResetTokenInfo clock
          info = record { token = Hex.encode bytes; username = e.username; expires_at = expires }

          moved : Pool db
          moved = record p { server = (db.exec store_code args p.server).1 }

          go :
              (d : Done)
              → ((n : Option ℕ) (l : Option ℤ)
                  → d ≡ done n l
                  → (j : ℤ)
                  → laws.row_at moved.server j
                    ≡ write_at id
                        (with_code code (clock.date_time expires))
                        (laws.row_at p.server)
                        j)
              → ((cause : String)
                  → d ≡ refused cause
                  → (j : ℤ) → laws.row_at moved.server j ≡ laws.row_at p.server j)
              → PrepareEnds email p
                  ((not_refused db d (λ cause. prepare_failed) >> pure info) moved)
          go (done n l) wrote kept = prepared info moved (record {
            bytes = bytes;
            id = id;
            e = e;
            drawn = drawn;
            here = here;
            has_email = has_email;
            token = refl;
            username = refl;
            wrote = fun_ext (wrote n l refl);
            is_ready = is_ready;
          })
          go (refused cause) wrote kept = unchanged prepare_failed moved (fun_ext (kept cause refl))

      prepare_drawn-PrepareEnds :
          (duration : Option ℤ) (token : Option Bytes)
          → draw.token ≡ token
          → PrepareEnds email p
              (prepare_drawn db clock sha256 draw.now id e.username duration token p)
      unfolding prepare_drawn
      prepare_drawn-PrepareEnds none token h = unchanged prepare_failed p refl
      prepare_drawn-PrepareEnds (some d) none h = unchanged prepare_failed p refl
      prepare_drawn-PrepareEnds (some d) (some bytes) h =
          store_token-PrepareEnds (clock.add_minutes d draw.now) bytes h

    prepare_found-PrepareEnds :
        (r : Row)
        → db.query_row select_by_email (text email ∷ []) p.server ≡ r
        → PrepareEnds email p
            (prepare_found db clock sha256 draw minutes (scan_row scan_id_and_text r) p)
    unfolding prepare_found
    prepare_found-PrepareEnds (row vs) read =
        let (id, e, values, here, has_email) = laws.select_by_email_row email p.server vs read in
        subst
          (λ x.
            PrepareEnds email p
              (prepare_found db clock sha256 draw minutes (scan_row scan_id_and_text (row x)) p))
          (sym values)
          (prepare_drawn-PrepareEnds id e here has_email (atoi minutes) draw.token refl)
    prepare_found-PrepareEnds no_rows read = unchanged "User not found" p refl
    prepare_found-PrepareEnds failed read = unchanged "User not found" p refl

  -- A preparation that succeeds stores the hash of the returned token, and the returned time, in a row
  -- whose address the collation takes for the given one, and leaves the other rows alone. Otherwise it returns an error and changes
  -- no row.
  pub prepare_reset_token-PrepareEnds :
      (minutes email : String) (p : Pool db)
      → PrepareEnds email p (prepare_reset_token db clock sha256 draw minutes email p)
  unfolding prepare_reset_token
  prepare_reset_token-PrepareEnds minutes email p = go p.ready refl
    where
      rest : Call (Pool db) (ResetTokenInfo clock)
      rest = do
        result ← gets (select db select_by_email (text email ∷ []) scan_id_and_text)
        prepare_found db clock sha256 draw minutes result

      go :
          (b : Bool)
          → p.ready ≡ b
          → PrepareEnds email p (
              ((λ (q : Pool db).
                    or_message (if b then ok tt else err not_initialised) "Internal error" q)
                  >> rest)
                p)
      go true is_ready =
          prepare_found-PrepareEnds email minutes p is_ready
            (db.query_row select_by_email (text email ∷ []) p.server) refl
      go false closed = unchanged "Internal error" p refl
