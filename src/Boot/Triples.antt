-- ===== src/Boot/Triples.antt =====
-- What holds of a call that returns a value, by what held before it.
use student_system_go.Common.{String}
use student_system_go.Go.{Result, ok, err, panic, Call, ◌>>=◌}
use student_system_go.Boot.{Drivers, Process, in_context, within, returned, driven}

-- What holds of the value and of the state of a call that returns one.
abbrev pub Post : {S A : Type 0} → (A → S → Type 0) → Result A × S → Type 0
Post Q (ok a, s) = Q a s
Post Q (err message, s) = Unit
Post Q (panic, s) = Unit

-- A call that begins where `P` holds and returns a value ends where `Q` holds of it.
abbrev pub Triple : {S A : Type 0} → (S → Type 0) → Call S A → (A → S → Type 0) → Type 0
Triple {S} P m Q = (s : S) → P s → Post Q (m s)

module _ {S : Type 0} where
  pub bind-Triple :
      {A B : Type 0} (P : S → Type 0) (Q : A → S → Type 0) (R : B → S → Type 0) (m : Call S A)
      (f : A → Call S B)
      → Triple P m Q
      → ((a : A) → Triple (Q a) (f a) R)
      → Triple P (m >>= f) R
  bind-Triple {A} P Q R m f first rest s h = go (m s) (first s h)
    where
      go : (x : Result A × S) → Post Q x → Post R (((λ (t : S). x) >>= f) s)
      go (ok a, t) k = rest a t k
      go (err message, t) k = tt
      go (panic, t) k = tt

  pub within-Triple :
      {A : Type 0} (P : S → Type 0) (Q : A → S → Type 0) (context : String) (m : Call S A)
      → Triple P m Q
      → Triple P (within context m) Q
  within-Triple {A} P Q context m first s h = go (m s) (first s h)
    where
      go : (x : Result A × S) → Post Q x → Post Q (in_context context x)
      go (ok a, t) k = k
      go (err message, t) k = tt
      go (panic, t) k = tt

  pub returned-Triple :
      {A : Type 0} (P : S → Type 0) (r : Result A) → Triple P (returned r) (λ a. P)
  returned-Triple P (ok a) s h = h
  returned-Triple P (err message) s h = tt
  returned-Triple P panic s h = tt

module _ (d : Drivers) where
  -- A property of the process that does not look at the world outside.
  abbrev pub Framed : (Process d → Type 0) → Type 0
  Framed P = (p : Process d) (w : d.World) → P p → P (record p { world = w })

  pub driven-Triple :
      {A : Type 0} (P : Process d → Type 0) (f : d.World → Result A × d.World)
      → Framed P
      → Triple P (driven d f) (λ a. P)
  driven-Triple {A} P f framed p h = go (f p.world)
    where
      go : (x : Result A × d.World) → Post (λ a. P) (x.0, record p { world = x.1 })
      go (ok a, w) = framed p w h
      go (err message, w) = tt
      go (panic, w) = tt

  -- A call of a driver in its context.
  pub call-Triple :
      {A : Type 0} (P : Process d → Type 0) (context : String) (f : d.World → Result A × d.World)
      → Framed P
      → Triple P (within context (driven d f)) (λ a. P)
  call-Triple P context f framed =
      within-Triple P (λ a. P) context (driven d f) (driven-Triple P f framed)
