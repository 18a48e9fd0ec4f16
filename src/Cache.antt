-- ===== src/Cache.antt =====
-- internal/cache/cache.go: the cache-aside helper over Redis. Redis is a parameter; its errors are
-- values, since each of them is logged and passed over. The client of internal/redis/client.go is nil
-- until it is connected, hence `ready`.
pub mod Coherent
pub mod Memory
mod Tests
use student_system_go.Common.{
  String, Bool, true, false, Option, none, some, List, [], ◌∷◌, if◌then◌else◌,
}
use student_system_go.Common.Text.{◌<>◌}
use student_system_go.Go.{Result, ok, err, panic, ⊤, Call, pure}

-- `Get`: `absent` is `redis.Nil`, `down` any other error.
pub data Got : Type 0 where
  hit : String → Got
  absent down : Got

pub record Redis : Type 1 where
  pub S : Type 0
  pub get : String → S → Got
  -- with the expiry `DefaultTTL`
  pub set : String → String → S → S
  pub scan : String → S → Option (List String)
  pub del : List String → S → S

-- `encoding/json` on the type of the cached value. `unmarshal` changes its destination, also when it
-- fails.
pub record Codec (A : Type 0) : Type 0 where
  pub marshal : A → Result String
  pub unmarshal : String → A → Result ⊤ × A
  pub zero_value : A

-- The Redis client of the process, and its store.
pub record Client (redis : Redis) : Type 0 where
  pub ready : Bool
  pub store : redis.S

abbrev pub key_prefix : String
key_prefix = "cache:"

module _ {A : Type 0} (codec : Codec A) where
  abbrev assign : String → Result ⊤ × A → Result A
  assign context (ok x, a) = ok a
  assign context (err cause, a) = err (context <> cause)
  assign context (panic, a) = panic

  abbrev bytes_of : String → Result String → Result String
  bytes_of context (err cause) = err (context <> cause)
  bytes_of context r = r

  -- `loadAndAssign`
  abbrev pub load_and_assign : A → Result A → Result A
  load_and_assign dest (err message) = err message
  load_and_assign dest panic = panic
  load_and_assign dest (ok value) = elim (codec.marshal value) [
    | ok bytes ↦ assign "" (codec.unmarshal bytes dest)
    | err cause ↦ err cause
    | panic ↦ panic
  ]

module _ (redis : Redis) {A : Type 0} (codec : Codec A) where
  abbrev pub put : String → String → Client redis → Client redis
  put key bytes c = record c { store = redis.set key bytes c.store }

  abbrev assigned : String → String → Result ⊤ × A → Client redis → Result A × Client redis
  assigned key bytes (ok x, a) c = (ok a, put key bytes c)
  assigned key bytes (err cause, a) c = (err ("cache: unmarshal into dest: " <> cause), c)
  assigned key bytes (panic, a) c = (panic, c)

  -- The value is assigned through its JSON, which is then stored.
  abbrev pub refresh : String → A → Result A → Client redis → Result A × Client redis
  refresh key dest (err message) c = (err message, c)
  refresh key dest panic c = (panic, c)
  refresh key dest (ok value) c = elim (codec.marshal value) [
    | ok bytes ↦ assigned key bytes (codec.unmarshal bytes dest) c
    | err cause ↦ (err ("cache: marshal: " <> cause), c)
    | panic ↦ (panic, c)
  ]

  -- A value that does not decode is refreshed, into the destination that decoding has left.
  abbrev pub on_hit : String → Result A → Result ⊤ × A → Client redis → Result A × Client redis
  on_hit key loaded (ok x, a) c = (ok a, c)
  on_hit key loaded (err cause, dest) c = refresh key dest loaded c
  on_hit key loaded (panic, dest) c = (panic, c)

  abbrev pub on_got : String → Result A → Got → Client redis → Result A × Client redis
  on_got key loaded (hit text) c = on_hit key loaded (codec.unmarshal text codec.zero_value) c
  on_got key loaded absent c = refresh key codec.zero_value loaded c
  on_got key loaded down c = refresh key codec.zero_value loaded c

  -- `GetOrFetch`. The loader only reads the database, so its result is given; it is used where the
  -- source calls it.
  unfoldable pub get_or_fetch : String → Result A → Client redis → Result A × Client redis
  get_or_fetch key loaded c =
      if c.ready
      then on_got key loaded (redis.get key c.store) c
      else (load_and_assign codec codec.zero_value loaded, c)

module _ (redis : Redis) where
  -- `Invalidate`
  unfoldable pub invalidate : List String → Client redis → Client redis
  invalidate [] c = c
  invalidate keys c = if c.ready then record c { store = redis.del keys c.store } else c

  abbrev pub scanned : Option (List String) → Client redis → Client redis
  unfolding invalidate
  scanned none c = c
  scanned (some keys) c = invalidate keys c

  -- `InvalidatePattern`
  unfoldable pub invalidate_pattern : String → Client redis → Client redis
  unfolding invalidate
  invalidate_pattern pattern c = if c.ready then scanned (redis.scan pattern c.store) c else c
