-- ===== src/Common/Decimal.antt =====
-- `strconv.Itoa` and `%d`, and their inverse.
use Prim.Native.Nat.{ℕ, zero, suc, ◌+◌, ◌*◌, ◌/◌, ◌%◌, ◌<◌}
use Prim.Native.String.{String}
use mathlib.Core.Path.{◌≡◌, refl, sym, ◌∙◌, ap}
use mathlib.Core.Option.{none, some}
use mathlib.Core.Logic.{inl, inr}
use text.Mathlib.TextLemmas.{nil-append, cons-append, append_assoc}
use native.Mathlib.Omega.{arith}
use package.student_system_go.Common.Tests.{◌==◌, if◌then◌else◌, Bool-cases}
use package.student_system_go.Common.Int.{ℤ, pos, negsuc}
use package.student_system_go.Common.Text.{◌<>◌, scan_digits, digits_from, leading}

unfoldable pub digit : ℕ → String
digit d =
    if d == 0
    then "0"
    else if d == 1
    then "1"
    else if d == 2
    then "2"
    else if d == 3
    then "3"
    else if d == 4
    then "4"
    else if d == 5
    then "5"
    else if d == 6
    then "6"
    else if d == 7
    then "7"
    else if d == 8
    then "8"
    else "9"

-- The digits of `n` in front of `tail`; the fuel is more than `n`, which has fewer digits.
unfoldable pub decimal_from : ℕ → ℕ → String → String
unfolding digit
decimal_from zero n tail = tail
decimal_from (suc f) n tail =
    let more = decimal_from f (n / 10) (digit (n % 10) <> tail) in
    if n / 10 == 0 then digit (n % 10) <> tail else more

unfoldable pub decimal : ℕ → String → String
unfolding decimal_from
decimal n tail = decimal_from (suc n) n tail

unfoldable pub itoa : ℤ → String
unfolding decimal
itoa (pos n) = decimal n ""
itoa (negsuc n) = "-" <> decimal (suc n) ""

itoa_tests : (itoa (pos 0) ≡ "0") × (itoa (pos 4207) ≡ "4207") × (itoa (negsuc 11) ≡ "-12")
unfolding itoa
itoa_tests = (refl, refl, refl)

module _ {B : Type 0} (stop finish : ℕ → B) where
  scan_digits-digit :
      (m d : ℕ) (s : String)
      → d < 10
      → scan_digits stop finish m (digit d <> s) ≡ scan_digits stop finish (m * 10 + d) s
  unfolding digit scan_digits
  scan_digits-digit m zero s h = rw (cons-append, nil-append)
  scan_digits-digit m (suc zero) s h = rw (cons-append, nil-append)
  scan_digits-digit m (suc (suc zero)) s h = rw (cons-append, nil-append)
  scan_digits-digit m (suc (suc (suc zero))) s h = rw (cons-append, nil-append)
  scan_digits-digit m (suc (suc (suc (suc zero)))) s h = rw (cons-append, nil-append)
  scan_digits-digit m (suc (suc (suc (suc (suc zero))))) s h = rw (cons-append, nil-append)
  scan_digits-digit m (suc (suc (suc (suc (suc (suc zero)))))) s h = rw (cons-append, nil-append)
  scan_digits-digit m (suc (suc (suc (suc (suc (suc (suc zero))))))) s h =
      rw (cons-append, nil-append)
  scan_digits-digit m (suc (suc (suc (suc (suc (suc (suc (suc zero)))))))) s h =
      rw (cons-append, nil-append)
  scan_digits-digit m (suc (suc (suc (suc (suc (suc (suc (suc (suc zero))))))))) s h =
      rw (cons-append, nil-append)
  scan_digits-digit m (suc (suc (suc (suc (suc (suc (suc (suc (suc (suc d)))))))))) s h =
      absurd (omega arith)

  -- Reading back the digits in front of a text gives the number.
  scan_digits-decimal_from :
      (f n : ℕ) (tail : String)
      → n < f
      → scan_digits stop finish 0 (decimal_from f n tail) ≡ scan_digits stop finish n tail
  unfolding decimal_from
  scan_digits-decimal_from zero n tail h = absurd (omega arith)
  scan_digits-decimal_from (suc f) n tail h =
      let whole : n / 10 * 10 + n % 10 ≡ n = omega arith in
      let read =
        scan_digits-digit (n / 10) (n % 10) tail (omega arith)
        ∙ ap (λ k. scan_digits stop finish k tail) whole in
      elim (Bool-cases (n / 10 == 0)) [
        | inl last ↦
            let none_left : n / 10 ≡ 0 = ground arith in
            rw last
              (ap (λ k. scan_digits stop finish k (digit (n % 10) <> tail)) (sym none_left) ∙ read)
        | inr more ↦
            rw (more, scan_digits-decimal_from f (n / 10) (digit (n % 10) <> tail) (ground arith))
              read
      ]

-- The digits of a number in front of a text are read back as that number.
pub digits_from-decimal :
    (n : ℕ) (tail : String) → digits_from 0 (decimal n tail) ≡ digits_from n tail
unfolding decimal scan_digits
digits_from-decimal n tail =
    scan_digits-decimal_from (λ n. none) (λ n. some n) (suc n) n tail (omega arith)

leading-decimal : (n : ℕ) (tail : String) → leading 0 (decimal n tail) ≡ leading n tail
unfolding decimal scan_digits
leading-decimal n tail = scan_digits-decimal_from (λ n. n) (λ n. n) (suc n) n tail (omega arith)

decimal_from-append :
    (f n : ℕ) (tail s : String) → decimal_from f n tail <> s ≡ decimal_from f n (tail <> s)
unfolding decimal_from
decimal_from-append zero n tail s = refl
decimal_from-append (suc f) n tail s = elim (Bool-cases (n / 10 == 0)) [
  | inl last ↦ rw last (append_assoc (digit (n % 10)) tail s)
  | inr more ↦ rw more (
      decimal_from-append f (n / 10) (digit (n % 10) <> tail) s
      ∙ ap (decimal_from f (n / 10)) (append_assoc (digit (n % 10)) tail s))
]

-- A number can be told from the text that it stands in front of, if that begins with a character that
-- is no digit.
pub itoa-slash-inj :
    (a b : ℕ) (s t : String) → itoa (pos a) <> "/" <> s ≡ itoa (pos b) <> "/" <> t → a ≡ b
unfolding itoa decimal scan_digits
itoa-slash-inj a b s t h = sym (front a s) ∙ ap (leading 0) h ∙ front b t
  where
    slash : (n : ℕ) (s : String) → leading n ("/" <> s) ≡ n
    slash n s = rw cons-append

    front : (n : ℕ) (s : String) → leading 0 (itoa (pos n) <> "/" <> s) ≡ n
    front n s =
        ap (leading 0) (
          decimal_from-append (suc n) n "" ("/" <> s)
          ∙ ap (decimal_from (suc n) n) (nil-append ("/" <> s)))
        ∙ leading-decimal n ("/" <> s)
        ∙ slash n s
