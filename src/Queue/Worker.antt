-- ===== src/Queue/Worker.antt =====
-- From the publisher to the mail.
use student_system_go.Common.{ℕ, ◌≡◌, refl, some, List, [], ◌∷◌, map}
use student_system_go.Reflect.Decode.{decode_struct}
use student_system_go.Queue.{
  PasswordResetMessage, message_json, success, ack, Event, cancelled, delivery, stopped, handle_one,
  consume_loop, Mailer, make_password_reset_handler,
}

-- The deliveries of messages that were published, with their tags.
abbrev pub deliveries : List (ℕ × PasswordResetMessage) → List Event → List Event
deliveries [] events = events
deliveries ((tag, m) ∷ ms) events =
    delivery (record { tag = tag; body = some (message_json m) }) ∷ deliveries ms events

module _ {W : Type 0} (send : PasswordResetMessage → W → W) where
  -- A mailer that does not fail, as `MockMailer` is one.
  abbrev pub sending : Mailer W
  sending m w = (success, send m w)

  abbrev pub all_sent : List (ℕ × PasswordResetMessage) → W → W
  all_sent [] w = w
  all_sent ((tag, m) ∷ ms) w = all_sent ms (send m w)

  make_password_reset_handler-message_json :
      (m : PasswordResetMessage) (w : W)
      → make_password_reset_handler sending (some (message_json m)) w ≡ (success, send m w)
  unfolding make_password_reset_handler decode_struct
  make_password_reset_handler-message_json m w = refl

  -- The worker hands each message that was published to its mailer, with all the fields that the
  -- publisher gave it, once and in the order of the deliveries, and acknowledges it, until its context
  -- is over, if the mailer does not fail.
  pub consume_loop-message_json :
      (ms : List (ℕ × PasswordResetMessage)) (events : List Event) (w : W)
      → consume_loop (make_password_reset_handler sending) (deliveries ms (cancelled ∷ events)) w
        ≡ (stopped, map (λ (p : ℕ × PasswordResetMessage). ack p.0) ms, all_sent ms w)
  unfolding consume_loop handle_one
  consume_loop-message_json [] events w = refl
  consume_loop-message_json ((tag, m) ∷ ms) events w =
      rw (
        make_password_reset_handler-message_json m w,
        consume_loop-message_json ms events (send m w),
      )
