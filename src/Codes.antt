-- ===== src/Codes.antt =====
-- What the program uses of `encoding/hex` and `encoding/base64` (the standard encoding). A byte is a
-- number below 256.
pub mod Hex
pub mod Base64
use package.text.Mathlib.TextLemmas.{nil-append, cons-append}
use student_system_go.Common.Text.{split, ◌<>◌, code_refl}
use student_system_go.Common.{
  ◌≡◌, refl, ap, ◌∙◌, inl, inr, arith, Bool-cases, ◌&&◌, ℕ, zero, suc, ◌+◌, ◌-◌, ◌*◌, ◌/◌, ◌%◌, ◌<◌,
  Char, code, String, Bool, true, false, ◌||◌, not, Option, none, some, List, [], ◌∷◌, ◌++◌, All,
  ◌==◌, ltb, if◌then◌else◌,
}

abbrev pub Bytes : Type 0
Bytes = List ℕ

abbrev pub IsBytes : Bytes → Type 0
IsBytes = All (λ b. b < 256)

-- The letters of a code, each standing for its position.
unfoldable pub nth_letter : String → ℕ → Char
nth_letter String.[] n = "?"
nth_letter (String.◌∷◌ c s) zero = c
nth_letter (String.◌∷◌ c s) (suc n) = nth_letter s n

unfoldable pub position : String → ℕ → Char → Option ℕ
position String.[] n c = none
position (String.◌∷◌ d s) n c =
    let rest = position s (n + 1) c in if code d == code c then some n else rest

abbrev pub with_byte : Option ℕ → Option Bytes → Option Bytes
with_byte (some b) (some bs) = some (b ∷ bs)
with_byte _ _ = none

-- A test holds below a bound.
unfoldable pub check_below : ℕ → (ℕ → Bool) → Bool
check_below zero test = true
check_below (suc n) test = test n && check_below n test

pub check_below-true :
    (n : ℕ) (test : ℕ → Bool) → check_below n test ≡ true → (m : ℕ) → m < n → test m ≡ true
unfolding check_below
check_below-true zero test h m l = elim l [ ]
check_below-true (suc n) test h m l = elim (Bool-cases (m == n)) [
  | inl same ↦ let e : m ≡ n = ground arith in ap test e ∙ both_left (test n) (check_below n test) h
  | inr other ↦
      check_below-true n test (both_right (test n) (check_below n test) h) m (ground arith)
]
  where
    both_left : (a b : Bool) → (a && b) ≡ true → a ≡ true
    both_left true b h = refl
    both_left false b h = cc

    both_right : (a b : Bool) → (a && b) ≡ true → b ≡ true
    both_right true b h = h
    both_right false b h = cc

abbrev pub is_value : Option ℕ → ℕ → Bool
is_value none n = false
is_value (some m) n = m == n

pub is_value-some : (o : Option ℕ) (n : ℕ) → is_value o n ≡ true → o ≡ some n
is_value-some none n h = cc
is_value-some (some m) n h = ground arith

pub not-false : (b : Bool) → not b ≡ true → b ≡ false
not-false true h = cc
not-false false h = refl

-- A character that does not stand in a text.
abbrev pub Avoids : ℕ → String → Type 0
Avoids n String.[] = Unit
Avoids n (String.◌∷◌ c s) = ((code c == n) ≡ false) × Avoids n s

-- `strings.Split` at a separator that stands between two texts and in neither.
split-last : (n : ℕ) (t : String) → Avoids n t → split n t ≡ t ∷ []
unfolding split
split-last n String.[] h = refl
split-last n (String.◌∷◌ c t) h = rw (h.0, split-last n t h.1)

pub split-two :
    (c : Char) (s t : String)
    → Avoids (code c) s
    → Avoids (code c) t
    → split (code c) (s <> String.◌∷◌ c t) ≡ s ∷ t ∷ []
unfolding split
split-two c String.[] t h k =
    rw (nil-append, code_refl (code c)) (ap (λ ts. "" ∷ ts) (split-last (code c) t k))
split-two c (String.◌∷◌ d s) t h k = rw (cons-append, h.0, split-two c s t h.1 k)
