-- ===== src/Go.antt =====
-- How a Go function ends: it returns a value, it returns an error (`utils.ErrorHandler` of
-- pkg/utils/error_handler.go logs the cause and keeps the message alone), or it panics. What was
-- written before an error or a panic stays written, so the state comes back in each case.
use student_system_go.Common.{String}

pub data Result {ℓ} (A : Type ℓ) : Type ℓ where
  ok : A → Result A
  err : String → Result A
  panic : Result A

abbrev pub ⊤ : Type 0
⊤ = Unit

abbrev pub Call {ℓ} : Type ℓ → Type ℓ → Type ℓ
Call S A = S → Result A × S

module _ {ℓ} {S A : Type ℓ} where
  abbrev pub pure : A → Call S A
  pure a s = (ok a, s)

  -- `return utils.ErrorHandler(err, message)`
  abbrev pub raise : String → Call S A
  raise message s = (err message, s)

  abbrev pub gets : (S → A) → Call S A
  gets f s = (ok (f s), s)

infixl 5 ◌>>=◌ ◌>>◌
abbrev pub ◌>>=◌ {ℓ} : {S A B : Type ℓ} → Call S A → (A → Call S B) → Call S B
◌>>=◌ m f s =
    let (r, s') = m s in
    elim r [ ok a ↦ f a s' | err message ↦ (err message, s') | panic ↦ (panic, s') ]

abbrev pub ◌>>◌ {ℓ} : {S A B : Type ℓ} → Call S A → Call S B → Call S B
m >> k = m >>= λ _. k
