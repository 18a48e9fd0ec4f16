-- ===== src/Login/Forgot.antt =====
-- The request of a reset token, over the database and the queue.
use student_system_go.Common.{◌≡◌, refl, ap, String, Option, some, inl, inr, Option-cases}
use student_system_go.Common.Text.{◌<>◌}
use student_system_go.Go.{Result, ok, err, panic, ⊤}
use student_system_go.Reflect.Json.{Json}
use student_system_go.Codes.{Bytes}
use student_system_go.Sql.{Sql, Pool}
use student_system_go.Http.{Reply, failed, sent}
use student_system_go.Queue.{
  Channel, message_json, password_reset_queue, publish_json, publish_json-ne-panic,
}
use student_system_go.Accounts.{Clock, Draw, ResetTokenInfo, prepare_reset_token}
use student_system_go.Accounts.Laws.{IsAccounts}
use student_system_go.Accounts.Prepare.{
  Prepared, PrepareEnds, unchanged, prepared, prepare_reset_token-PrepareEnds,
}
use student_system_go.Login.{
  body_of, email_fields, ForgotWorld, message_for, enqueued, token_prepared,
  forgot_password_handler,
}

module _ {db : Sql} (laws : IsAccounts db) (channel : Channel) (clock : Clock)
    (sha256 : Bytes → Bytes) (draw : Draw clock) (minutes : String) (base_url : Option String) where
  abbrev posted : String → ResetTokenInfo clock → channel.S → Result ⊤ × channel.S
  posted email info s =
      publish_json channel password_reset_queue
        (message_json (message_for db channel clock sha256 draw minutes base_url email info)) s

  -- How the request with this body may end in the world `w`.
  pub data ForgotEnds (body : Option Json) (w : ForgotWorld db channel)
      : Reply String × ForgotWorld db channel → Type 0 where
    refused :
        (message : String) (v : ForgotWorld db channel)
        → laws.row_at v.pool.server ≡ laws.row_at w.pool.server
        → v.broker ≡ w.broker
        → ForgotEnds body w (failed 400 message, v)
    not_enqueued :
        (email cause : String) (info : ResetTokenInfo clock) (v : ForgotWorld db channel)
        → body_of email_fields "" body ≡ some email
        → Prepared laws clock sha256 draw email w.pool info v.pool
        → posted email info w.broker ≡ (err cause, v.broker)
        → ForgotEnds body w (failed 503 "Email service temporarily unavailable, please retry", v)
    accepted :
        (email : String) (info : ResetTokenInfo clock) (v : ForgotWorld db channel)
        → body_of email_fields "" body ≡ some email
        → Prepared laws clock sha256 draw email w.pool info v.pool
        → posted email info w.broker ≡ (ok tt, v.broker)
        → ForgotEnds body w (sent 202 ("Password reset link is being sent to " <> email), v)

  module _ (body : Option Json) (w : ForgotWorld db channel) (email : String)
      (asked : body_of email_fields "" body ≡ some email) where
    enqueued-ForgotEnds :
        (info : ResetTokenInfo clock) (pool : Pool db) (r : Result ⊤) (s : channel.S)
        → Prepared laws clock sha256 draw email w.pool info pool
        → posted email info w.broker ≡ (r, s)
        → ForgotEnds body w
            (enqueued db channel clock sha256 draw minutes base_url email pool (r, s))
    enqueued-ForgotEnds info pool (ok u) s made post =
        accepted email info (record { pool = pool; broker = s }) asked made post
    enqueued-ForgotEnds info pool (err cause) s made post =
        not_enqueued email cause info (record { pool = pool; broker = s }) asked made post
    enqueued-ForgotEnds info pool panic s made post = absurd (
        publish_json-ne-panic channel password_reset_queue _ w.broker
          (ap (λ (x : Result ⊤ × channel.S). x.0) post))

    token_prepared-ForgotEnds :
        (x : Result (ResetTokenInfo clock) × Pool db)
        → PrepareEnds laws clock sha256 draw email w.pool x
        → ForgotEnds body w
            (token_prepared db channel clock sha256 draw minutes base_url email w.broker x)
    unfolding token_prepared
    token_prepared-ForgotEnds _ (unchanged message q kept) =
        refused message (record { pool = q; broker = w.broker }) kept refl
    token_prepared-ForgotEnds _ (prepared info q made) =
        let post = posted email info w.broker in enqueued-ForgotEnds info q post.0 post.1 made refl

  -- The request is accepted only when the hash of a new token is stored in a row whose address the
  -- collation takes for the address of the body, and the broker has confirmed the message with this
  -- token to the address of the body. When the broker fails it answers 503, and the token stays
  -- stored. Any other failure answers 400, changes no row and sends nothing.
  pub forgot_password_handler-ForgotEnds :
      (body : Option Json) (w : ForgotWorld db channel)
      → ForgotEnds body w
          (forgot_password_handler db channel clock sha256 draw minutes base_url body w)
  unfolding forgot_password_handler token_prepared
  forgot_password_handler-ForgotEnds body w = elim (Option-cases (body_of email_fields "" body)) [
    | inl bad ↦ rw bad (refused "Invalid request body" w refl refl)
    | inr (email, good) ↦ rw good (
        token_prepared-ForgotEnds body w email good
          (prepare_reset_token db clock sha256 draw minutes email w.pool)
          (prepare_reset_token-PrepareEnds laws clock sha256 draw minutes email w.pool))
  ]
