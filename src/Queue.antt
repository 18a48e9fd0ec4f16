-- ===== src/Queue.antt =====
-- internal/queue/rabbitmq/publisher.go and consumer.go, internal/mailer and cmd/worker/main.go: the
-- messages that ask for a mail, from the publisher to the worker. The AMQP client is a parameter.
pub mod Settles
pub mod Worker
mod Tests
use student_system_go.Common.{
  ℕ, ◌≢◌, String, Bool, true, false, Option, none, some, List, [], ◌∷◌, ◌++◌, if◌then◌else◌,
}
use student_system_go.Common.Text.{same, ◌<>◌}
use student_system_go.Go.{Result, ok, err, panic, ⊤}
use student_system_go.Reflect.{Field, string_slot}
use student_system_go.Reflect.Json.{Json, str, obj, end, member}
use student_system_go.Reflect.Decode.{decode_struct}

-- The constant `QueuePasswordReset`
abbrev pub password_reset_queue : String
password_reset_queue = "email.password_reset"

-- A channel in confirm mode: `PublishWithDeferredConfirmWithContext` with its error, if any, and
-- `WaitContext`, which returns the broker's answer or an error when the time is over.
pub data Confirmation : Type 0 where
  answered : Bool → Confirmation
  broken : String → Confirmation

pub record Channel : Type 1 where
  pub S : Type 0
  pub publish : String → Json → S → Option String × S
  pub wait : S → Confirmation × S

module _ (channel : Channel) where
  abbrev confirmed : String → Confirmation → Result ⊤
  confirmed queue (answered true) = ok tt
  confirmed queue (answered false) = err ("rabbitmq: broker NACKed message to " <> queue)
  confirmed queue (broken cause) = err ("rabbitmq: wait for confirm on " <> queue <> ": " <> cause)

  abbrev published : String → Option String × channel.S → Result ⊤ × channel.S
  published queue (some cause, s) = (err ("rabbitmq: publish to " <> queue <> ": " <> cause), s)
  published queue (none, s) = let (c, t) = channel.wait s in (confirmed queue c, t)

  -- `PublishJSON`; the message has only texts, so `json.Marshal` does not fail.
  unfoldable pub publish_json : String → Json → channel.S → Result ⊤ × channel.S
  publish_json queue body s = published queue (channel.publish queue body s)

confirmed-ne-panic :
    (channel : Channel) (queue : String) (c : Confirmation) → confirmed channel queue c ≢ panic
confirmed-ne-panic channel queue (answered true) h = cc
confirmed-ne-panic channel queue (answered false) h = cc
confirmed-ne-panic channel queue (broken cause) h = cc

pub publish_json-ne-panic :
    (channel : Channel) (queue : String) (body : Json) (s : channel.S)
    → (publish_json channel queue body s).0 ≢ panic
unfolding publish_json
publish_json-ne-panic channel queue body s = go (channel.publish queue body s)
  where
    go : (x : Option String × channel.S) → (published channel queue x).0 ≢ panic
    go (some cause, t) h = cc
    go (none, t) h = confirmed-ne-panic channel queue (channel.wait t).0 h

-- `PasswordResetMessage`
pub record PasswordResetMessage : Type 0 where
  pub to : String
  pub username : String
  pub reset_token : String
  pub reset_url : String
  pub expires_at : String

abbrev pub zero_message : PasswordResetMessage
zero_message = record { to = ""; username = ""; reset_token = ""; reset_url = ""; expires_at = "" }

-- What `encoding/json` sees of it.
abbrev pub message_fields : List (Field PasswordResetMessage)
message_fields =
    record { json = "to"; db = ""; slot = string_slot (λ m. m.to) (λ v m. record m { to = v }) }
    ∷ record {
      json = "username";
      db = "";
      slot = string_slot (λ m. m.username) (λ v m. record m { username = v });
    }
    ∷ record {
      json = "reset_token";
      db = "";
      slot = string_slot (λ m. m.reset_token) (λ v m. record m { reset_token = v });
    }
    ∷ record {
      json = "reset_url";
      db = "";
      slot = string_slot (λ m. m.reset_url) (λ v m. record m { reset_url = v });
    }
    ∷ record {
      json = "expires_at";
      db = "";
      slot = string_slot (λ m. m.expires_at) (λ v m. record m { expires_at = v });
    }
    ∷ []

-- `json.Marshal` of it
abbrev pub message_json : PasswordResetMessage → Json
message_json m = obj (
    member "to" (str m.to) (
      member "username" (str m.username) (
        member "reset_token" (str m.reset_token)
          (member "reset_url" (str m.reset_url) (member "expires_at" (str m.expires_at) end)))))

-- How a handler of a message ends.
pub data Outcome : Type 0 where
  success : Outcome
  failure : String → Outcome
  panicked : Outcome

-- `d.Ack(false)` and `d.Nack(false, false)` on the delivery with the tag; without requeue, the broker
-- moves the message to the queue of failed messages.
pub data Settlement : Type 0 where
  ack : ℕ → Settlement
  nack : ℕ → Settlement

-- A delivery: its tag, and its body, if that is JSON.
pub record Delivery : Type 0 where
  pub tag : ℕ
  pub body : Option Json

-- What `select` yields: the context is over, the channel of deliveries is closed, or a delivery.
pub data Event : Type 0 where
  cancelled : Event
  closed : Event
  delivery : Delivery → Event

-- How the consumer ends: it still waits, or it returns nil or an error.
pub data Ended : Type 0 where
  waiting : Ended
  stopped : Ended
  failed : String → Ended

module _ {W : Type 0} (handler : Option Json → W → Outcome × W) where
  abbrev pub settle : ℕ → Outcome → Settlement
  settle tag success = ack tag
  settle tag (failure cause) = nack tag
  settle tag panicked = nack tag

  -- `handleOne`; `recover` turns a panic of the handler into a Nack.
  unfoldable pub handle_one : Delivery → W → Settlement × W
  handle_one d w = let (outcome, v) = handler d.body w in (settle d.tag outcome, v)

  -- The loop of `Consume`, over what `select` yields: how it ends, the settlements in order, and what
  -- the handler did.
  unfoldable pub consume_loop : List Event → W → Ended × List Settlement × W
  unfolding handle_one
  consume_loop [] w = (waiting, [], w)
  consume_loop (cancelled ∷ events) w = (stopped, [], w)
  consume_loop (closed ∷ events) w = (failed "rabbitmq: deliveries channel closed", [], w)
  consume_loop (delivery d ∷ events) w =
      let rest = consume_loop events (handle_one d w).1 in
      (rest.0, (handle_one d w).0 ∷ rest.1, rest.2)

  -- The three calls that `Consume` begins with, and the error of the first that fails.
  unfoldable pub consume :
      String
      → Option String
      → Option String
      → Option String
      → List Event
      → W
      → Ended × List Settlement × W
  unfolding consume_loop
  consume queue (some cause) qos start events w =
      (failed ("rabbitmq: open consume channel: " <> cause), [], w)
  consume queue none (some cause) start events w = (failed ("rabbitmq: set qos: " <> cause), [], w)
  consume queue none none (some cause) events w =
      (failed ("rabbitmq: consume " <> queue <> ": " <> cause), [], w)
  consume queue none none none events w = consume_loop events w

-- A mailer: `SendPasswordReset`
abbrev pub Mailer : Type 0 → Type 0
Mailer W = PasswordResetMessage → W → Outcome × W

-- What `MockMailer` writes to the log of a message: the token itself is not there.
abbrev pub log_lines : PasswordResetMessage → List String
log_lines m =
    "[mailer-mock] === PASSWORD RESET EMAIL ==="
    ∷ ("[mailer-mock] To:        " <> m.to)
    ∷ ("[mailer-mock] Username:  " <> m.username)
    ∷ ("[mailer-mock] Reset URL: " <> m.reset_url)
    ∷ ("[mailer-mock] Expires:   " <> m.expires_at)
    ∷ "[mailer-mock] === END EMAIL ==="
    ∷ []

abbrev pub mock_mailer : Mailer (List String)
mock_mailer m log = (success, log ++ log_lines m)

-- `mailer.New`, by the variable MAILER_TYPE
unfoldable pub new_mailer : String → Result (Mailer (List String))
new_mailer kind =
    if same kind ""
    then ok mock_mailer
    else if same kind "mock"
    then ok mock_mailer
    else err ("mailer: unknown MAILER_TYPE=" <> kind)

module _ {W : Type 0} (mailer : Mailer W) where
  abbrev send_failed : Outcome × W → Outcome × W
  send_failed (success, w) = (success, w)
  send_failed (failure cause, w) = (failure ("send: " <> cause), w)
  send_failed (panicked, w) = (panicked, w)

  abbrev sent : Option PasswordResetMessage → W → Outcome × W
  sent none w = (failure "decode message", w)
  sent (some m) w = send_failed (mailer m w)

  abbrev pub decoded_message : Option Json → Option PasswordResetMessage
  unfolding decode_struct
  decoded_message none = none
  decoded_message (some j) = decode_struct message_fields zero_message j

  -- `makePasswordResetHandler`
  unfoldable pub make_password_reset_handler : Option Json → W → Outcome × W
  unfolding decode_struct
  make_password_reset_handler body w = sent (decoded_message body) w
