-- ===== src/Limiter/Window.antt =====
-- The headers of the limiter: their bounds.
use student_system_go.Common.{
  ℕ, ◌+◌, ◌-◌, ◌*◌, ◌/◌, ◌%◌, ◌≤◌, ◌<◌, ◌≡◌, refl, arith, ltb, ap, ◌∙◌, inl, inr, Bool-cases,
}
use native.Mathlib.Nat.{mod-lt, div-add-mod, add-mul, mul_comm}
use student_system_go.Limiter.{RateHeaders, Verdict, allow, deny, Limit, Visit, decide}

abbrev InBounds : Limit → Visit → RateHeaders → Type 0
InBounds l v h =
    (h.limit ≡ l.limit) × (h.remaining ≤ l.limit) × (v.now < h.reset) × (h.reset ≤ v.now + l.window)

-- What the limiter tells the client about the `count`-th request of a window.
abbrev pub Tells : Limit → Visit → ℕ → Verdict → Type 0
Tells l v count (allow h) = (count ≤ l.limit) × (h.remaining + count ≡ l.limit) × InBounds l v h
Tells l v count (deny h seconds) =
    (l.limit < count)
    × (h.remaining ≡ 0)
    × InBounds l v h
    × (0 < seconds)
    × (seconds ≤ l.window)
    × (v.later + seconds ≡ (v.later / l.window + 1) * l.window)
Tells l v count x = ⊥

window-bounds :
    (now window : ℕ)
    → 0 < window
    → (now < (now / window + 1) * window)
      × ((now / window + 1) * window ≤ now + window)
      × (now + (window - now % window) ≡ (now / window + 1) * window)
window-bounds now window h =
    let whole : window * (now / window) + now % window ≡ now = div-add-mod now window in
    let under : now % window < window = mod-lt now h in
    let product : (now / window + 1) * window ≡ window * (now / window) + window =
      add-mul (now / window) 1 window
      ∙ ap (λ x. x + 1 * window) (mul_comm (now / window) window)
      ∙ (omega arith) in
    (omega arith, omega arith, omega arith)

-- For the count of a request in its window, the limiter lets through exactly up to the limit. It tells
-- the client how many requests are left, that the window ends after now and within its length, and, on
-- 429, to retry after at least one second and at most the window, when the window of its second reading
-- of the clock ends. The window is at least one second.
pub decide-Tells :
    (l : Limit) (v : Visit) (count : ℕ) → 0 < l.window → Tells l v count (decide l count v)
decide-Tells l v count h =
    let (after, within_length, _) = window-bounds v.now l.window h in
    let under : v.later % l.window < l.window = mod-lt v.later h in
    elim (Bool-cases (ltb l.limit count)) [
      | inl over ↦
          let more : l.limit < count = ground arith in
          rw over (
            more,
            omega arith,
            (refl, omega arith, after, within_length),
            omega arith,
            omega arith,
            (window-bounds v.later l.window h).2,
          )
      | inr within ↦
          let at_most : count ≤ l.limit = ground arith in
          rw within (at_most, omega arith, (refl, omega arith, after, within_length))
    ]
