-- ===== src/Limiter/InProcess.antt =====
-- internal/api/middlewares/rate_limiter.go: the limiter whose counters are a map of the process, which a
-- goroutine replaces by an empty one from time to time.
use student_system_go.Common.{
  ℕ, suc, ◌+◌, ◌-◌, ◌*◌, ◌≤◌, ◌≡◌, sym, String, Bool, true, false, List, [], ◌∷◌, ltb, ◌&&◌,
  if◌then◌else◌, arith, inl, inr, Bool-cases, eq_iff, eq_refl,
}
use mathlib.Core.Path.{subst}
use student_system_go.Common.Text.{same, split, ◌<>◌}

-- `visitors`; a missing key counts 0.
abbrev pub Visitors : Type 0
Visitors = String → ℕ

-- A round of `resetVisitorCount`
abbrev pub reset_visitor_count : Visitors → Visitors
reset_visitor_count v ip = 0

-- The text before the last `:`, if there is one.
abbrev before_last : String → List String → String
before_last addr [] = addr
before_last addr (part ∷ []) = part
before_last addr (part ∷ other ∷ []) = part
before_last addr (part ∷ parts) = part <> ":" <> before_last addr parts

unfoldable pub visitor_ip : String → String
unfolding split
visitor_ip addr = before_last addr (split b':' addr)

abbrev pub count_visit : String → Visitors → Visitors
count_visit ip v j = if same j ip then suc (v ip) else v j

-- `Middleware`, up to the call of the next handler: whether the request goes on, and the counters.
unfoldable pub middleware : ℕ → String → Visitors → Bool × Visitors
unfolding visitor_ip
middleware limit addr v =
    let counted = count_visit (visitor_ip addr) v in
    (if ltb limit (counted (visitor_ip addr)) then false else true, counted)

-- What the mutex puts in order: the requests, by their addresses, and the rounds of `resetVisitorCount`.
pub data Event : Type 0 where
  request : String → Event
  reset : Event

abbrev add_one : Bool → ℕ → ℕ
add_one true n = suc n
add_one false n = n

-- How many requests of `ip` go on.
unfoldable pub let_through : ℕ → String → List Event → Visitors → ℕ
unfolding middleware
let_through limit ip [] v = 0
let_through limit ip (reset ∷ events) v = let_through limit ip events (reset_visitor_count v)
let_through limit ip (request addr ∷ events) v =
    let (goes_on, w) = middleware limit addr v in
    add_one (same (visitor_ip addr) ip && goes_on) (let_through limit ip events w)

abbrev pub resets : List Event → ℕ
resets [] = 0
resets (reset ∷ events) = suc (resets events)
resets (request addr ∷ events) = resets events

own-le :
    (limit : ℕ) (ip : String) (v : Visitors) (more passed : ℕ)
    → passed ≤ (limit - suc (v ip)) + more
    → add_one (same ip ip && (if ltb limit (count_visit ip v ip) then false else true)) passed
      ≤ (limit - v ip) + more
own-le limit ip v more passed rest = rw (eq_refl ip) (ground arith)

counted-le :
    (limit : ℕ) (ip k : String) (v : Visitors) (more passed : ℕ)
    → passed ≤ (limit - count_visit k v ip) + more
    → add_one (same k ip && (if ltb limit (count_visit k v k) then false else true)) passed
      ≤ (limit - v ip) + more
counted-le limit ip k v more passed rest = elim (Bool-cases (same k ip)) [
  | inl here ↦
      let equal : k ≡ ip = (eq_iff k ip).0 here in
      subst
        (λ j.
          add_one (same j ip && (if ltb limit (count_visit j v j) then false else true)) passed
          ≤ (limit - v ip) + more)
        (sym equal)
        (own-le limit ip v more passed (
          rw (eq_refl ip) at
            (subst (λ j. passed ≤ (limit - count_visit j v ip) + more) equal rest)))
  | inr other ↦ elim (Bool-cases (same ip k)) [
    | inl here ↦ cc (other, (eq_iff k ip).1 (sym ((eq_iff ip k).0 here)))
    | inr away ↦ rw other (rw away at rest)
  ]
]

-- At most `limit` requests of one address go on between two resets, whatever the others do.
pub let_through-le :
    (limit : ℕ) (ip : String) (events : List Event) (v : Visitors)
    → let_through limit ip events v ≤ (limit - v ip) + resets events * limit
unfolding let_through
let_through-le limit ip [] v = omega arith
let_through-le limit ip (reset ∷ events) v =
    let rest = let_through-le limit ip events (reset_visitor_count v) in omega arith
let_through-le limit ip (request addr ∷ events) v =
    counted-le limit ip (visitor_ip addr) v (resets events * limit)
      (let_through limit ip events (count_visit (visitor_ip addr) v))
      (let_through-le limit ip events (count_visit (visitor_ip addr) v))
