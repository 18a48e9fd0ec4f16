-- ===== src/Limiter.antt =====
-- internal/api/middlewares/rate_limiter_redis.go: the fixed-window limiter whose counters are in Redis,
-- and the wrapper for single paths. The times are Unix times in seconds.
pub mod Window
pub mod Quota
pub mod InProcess
mod Tests
use student_system_go.Common.{
  ℕ, zero, suc, ◌+◌, ◌-◌, ◌*◌, ◌/◌, ◌%◌, String, Bool, true, false, Option, none, some, List, [],
  ◌∷◌, ltb, ◌==◌, if◌then◌else◌,
}
use mathlib.Core.Option
use student_system_go.Common.Int.{pos}
use student_system_go.Common.Text.{same, ◌<>◌, trim_space, cut_at}
use student_system_go.Common.Decimal.{itoa}
use student_system_go.Http.{Reply, failed, closed, Handler}

-- `Incr` and `Expire`; `none` is an error or the timeout of 200 ms.
pub record Counters : Type 1 where
  pub S : Type 0
  pub incr : String → S → Option ℕ × S
  pub expire : String → ℕ → S → S

-- The headers X-RateLimit-Limit, -Remaining and -Reset
pub record RateHeaders : Type 0 where
  pub limit : ℕ
  pub remaining : ℕ
  pub reset : ℕ

-- What the limiter decides: to let the request through without having counted it, to let it through, to
-- answer 429 with the seconds of Retry-After; or it divides by zero, for a window under one second.
pub data Verdict : Type 0 where
  fail_open : Verdict
  allow : RateHeaders → Verdict
  deny : RateHeaders → ℕ → Verdict
  crash : Verdict

pub record Limit : Type 0 where
  pub name : String
  pub limit : ℕ
  pub window : ℕ

-- A request as the limiter sees it: the client's address, and the time at its two calls of `time.Now`.
pub record Visit : Type 0 where
  pub ip : String
  pub now : ℕ
  pub later : ℕ

module _ (l : Limit) where
  abbrev pub bucket : Visit → ℕ
  bucket v = v.now / l.window

  -- `fmt.Sprintf("rl:%s:%s:%d", name, ip, bucket)`
  abbrev pub window_key : Visit → String
  window_key v = "rl:" <> l.name <> ":" <> v.ip <> ":" <> itoa (pos (bucket v))

  -- `remaining` stops at 0, as subtraction on ℕ does.
  abbrev pub rate_headers : ℕ → Visit → RateHeaders
  rate_headers count v = record {
    limit = l.limit;
    remaining = l.limit - count;
    reset = (bucket v + 1) * l.window;
  }

  abbrev pub retry_after : Visit → ℕ
  retry_after v = l.window - v.later % l.window

  abbrev pub decide : ℕ → Visit → Verdict
  decide count v =
      if ltb l.limit count
      then deny (rate_headers count v) (retry_after v)
      else allow (rate_headers count v)

module _ (redis : Counters) (l : Limit) where
  abbrev pub with_expiry : ℕ → String → redis.S → redis.S
  with_expiry count key s = if count == 1 then redis.expire key l.window s else s

  abbrev pub counted : Visit → Option ℕ × redis.S → Verdict × redis.S
  counted v (none, s) = (fail_open, s)
  counted v (some count, s) = (decide l count v, with_expiry count (window_key l v) s)

  -- The handler that `RedisRateLimit` returns, up to the call of the next one.
  unfoldable pub redis_rate_limit : Visit → redis.S → Verdict × redis.S
  redis_rate_limit v s =
      if l.window == 0 then (crash, s) else counted v (redis.incr (window_key l v) s)

abbrev first_entry : Option (String × String) → String → String
unfolding trim_space
first_entry none forwarded = trim_space forwarded
first_entry (some (first, rest)) forwarded = trim_space first

-- `clientIP`: the headers X-Forwarded-For and X-Real-IP, and the remote address with the host that
-- `net.SplitHostPort` finds in it.
unfoldable pub client_ip : String → String → String → Option String → String
unfolding trim_space cut_at
client_ip forwarded real remote host =
    if same forwarded ""
    then if same real "" then Option.get_or host remote else trim_space real
    else first_entry (cut_at b',' forwarded) forwarded

-- What is done with the verdict.
abbrev pub on_verdict : {W A : Type 0} → Verdict → Handler W A → Handler W A
on_verdict fail_open next w = next w
on_verdict (allow h) next w = next w
on_verdict (deny h seconds) next w = (failed 429 "Too Many Requests", w)
on_verdict crash next w = (closed, w)

abbrev pub is_path : String → List String → Bool
is_path path [] = false
is_path path (p ∷ ps) = if same path p then true else is_path path ps

-- `PathOnly`
abbrev pub path_only : {H : Type 0} → List String → (H → H) → String → H → H
path_only paths middleware path next = if is_path path paths then middleware next else next
