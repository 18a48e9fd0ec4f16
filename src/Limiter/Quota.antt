-- ===== src/Limiter/Quota.antt =====
-- The quota: over any sequence of requests, whoever sends them and in whatever order, the limiter lets
-- through at most `limit` requests of one client in one window.
use student_system_go.Common.{
  ℕ, suc, ◌+◌, ◌-◌, ◌≤◌, ◌≡◌, String, some, List, [], ◌∷◌, if◌then◌else◌,
}
use student_system_go.Common.Text.{same}
use student_system_go.Limiter.{Counters, Verdict, allow, Limit, Visit, window_key, redis_rate_limit}

-- What is documented of Redis: INCR adds one to a key and returns the new value; if it fails, it may have
-- added one. EXPIRE drops no counter before its window is over, which the sequence here does not outlast.
pub record IsCounters (redis : Counters) : Type 0 where
  pub count : String → redis.S → ℕ
  pub incr_count :
      (k : String) (s : redis.S) (n : ℕ)
      → (redis.incr k s).0 ≡ some n
      → (n ≡ suc (count k s)) × (count k (redis.incr k s).1 ≡ n)
  pub incr_other : (k j : String) (s : redis.S) → count j s ≤ count j (redis.incr k s).1
  pub expire_count :
      (k j : String) (seconds : ℕ) (s : redis.S) → count j (redis.expire k seconds s) ≡ count j s

module _ (redis : Counters) (l : Limit) where
  abbrev lets_through : String → Visit → Verdict → ℕ
  lets_through key v (allow h) = if same (window_key l v) key then 1 else 0
  lets_through key v x = 0

  -- How many of the requests counted under `key` the limiter lets through.
  abbrev pub passes : String → List Visit → redis.S → ℕ
  unfolding redis_rate_limit
  passes key [] s = 0
  passes key (v ∷ vs) s =
      let rest = passes key vs (redis_rate_limit redis l v s).1 in
      lets_through key v (redis_rate_limit redis l v s).0 + rest

module _ {redis : Counters} (laws : IsCounters redis) (l : Limit) where
  -- One request: what it takes of the quota is there, and counted.
  abbrev Takes : String → Visit → redis.S → Verdict × redis.S → Type 0
  Takes key v s x =
      lets_through redis l key v x.0 + (l.limit - laws.count key x.1) ≤ l.limit - laws.count key s
