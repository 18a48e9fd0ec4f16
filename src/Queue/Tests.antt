-- ===== src/Queue/Tests.antt =====
-- Runs of the consumer, and the theorems at events.
use student_system_go.Common.{
  ℕ, ◌≡◌, refl, String, true, false, Option, none, some, List, [], ◌∷◌, ◌++◌, map, ◌==◌,
  if◌then◌else◌,
}
use student_system_go.Reflect.Json.{Json, str}
use student_system_go.Reflect.Decode.{decode_struct}
use student_system_go.Go.{ok, err}
use student_system_go.Queue.{
  PasswordResetMessage, message_json, Outcome, ack, nack, Event, cancelled, closed, delivery,
  stopped, failed, handle_one, consume, consume_loop, log_lines, mock_mailer,
  make_password_reset_handler, Channel, publish_json, answered, broken,
}
use student_system_go.Queue.Settles.{taken, end_of, tag_of, Settled, consume_loop-Settles}
use student_system_go.Queue.Worker.{deliveries, sending, all_sent, consume_loop-message_json}

abbrev mail : PasswordResetMessage
mail = record {
  to = "ada@x";
  username = "ada";
  reset_token = "ab05";
  reset_url = "u/ab05";
  expires_at = "t";
}

abbrev handler : Option Json → List String → Outcome × List String
handler = make_password_reset_handler mock_mailer

-- A message that is no JSON, then a mail, then the end of the channel.
abbrev events : List Event
events =
    delivery (record { tag = 1; body = none })
    ∷ delivery (record { tag = 2; body = some (message_json mail) })
    ∷ closed
    ∷ delivery (record { tag = 3; body = some (message_json mail) })
    ∷ []

consume_tests :
    (consume_loop handler events []
      ≡ (failed "rabbitmq: deliveries channel closed", nack 1 ∷ ack 2 ∷ [], log_lines mail))
    × (consume handler "q" none (some "x") none events [] ≡ (failed "rabbitmq: set qos: x", [], []))
unfolding consume consume_loop handle_one make_password_reset_handler decode_struct
consume_tests = (refl, refl)

consume_loop-Settles_example :
    ((consume_loop handler events []).0 ≡ end_of events)
    × Settled handler
        (taken events)
        []
        (consume_loop handler events []).1
        (consume_loop handler events []).2
    × (map tag_of (consume_loop handler events []).1 ≡ map (λ d. d.tag) (taken events))
consume_loop-Settles_example = consume_loop-Settles handler events []

-- The log of the mock mailer
abbrev logged : PasswordResetMessage → List String → List String
logged m log = log ++ log_lines m

consume_loop-message_json_example :
    consume_loop
      (make_password_reset_handler (sending logged))
      (deliveries ((1, mail) ∷ []) (cancelled ∷ []))
      []
    ≡ (
      stopped,
      map (λ (p : ℕ × PasswordResetMessage). ack p.0) ((1, mail) ∷ []),
      all_sent logged ((1, mail) ∷ []) [],
    )
consume_loop-message_json_example = consume_loop-message_json logged ((1, mail) ∷ []) [] []

-- A broker that keeps what it is sent and says so, or not.
abbrev broker : Channel
broker = record {
  S = ℕ;
  publish = λ queue body n. (if n == 3 then some "closed" else none, n);
  wait = λ n.
      (if n == 0 then answered true else if n == 1 then answered false else broken "timeout", n);
}

publish_tests :
    ((publish_json broker "q" (str "m") 0).0 ≡ ok tt)
    × ((publish_json broker "q" (str "m") 1).0 ≡ err "rabbitmq: broker NACKed message to q")
    × ((publish_json broker "q" (str "m") 2).0 ≡ err "rabbitmq: wait for confirm on q: timeout")
    × ((publish_json broker "q" (str "m") 3).0 ≡ err "rabbitmq: publish to q: closed")
unfolding publish_json
publish_tests = (refl, refl, refl, refl)
