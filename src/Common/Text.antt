-- ===== src/Common/Text.antt =====
-- Texts: equality and concatenation, and what the program uses of Go's `strings` and `strconv`.
use Prim.Native.Nat.{ℕ, ◌+◌, ◌-◌, ◌*◌, ◌^◌}
use Prim.Native.Char.{Char, code}
use Prim.Native.String
use Prim.Native.String.{String, [], ◌∷◌}
use mathlib.Core.Path.{◌≡◌, refl, sym, ap, ◌∙◌}
use mathlib.Core.Bool.{Bool, true, false, ◌&&◌, ◌||◌}
use mathlib.Core.Option.{Option, none, some}
use mathlib.Core.List.{List}
use text.Mathlib.TextEquality.{Char-path}
use text.Mathlib.TextLemmas.{cons-append, nil-append}
use native.Mathlib.Omega.{arith}
use text.Mathlib.Text.{◌==◌ as text_eq}
use package.student_system_go.Common.Tests.{ltb, leb, ◌==◌, if◌then◌else◌}
use package.student_system_go.Common.Int.{ℤ, pos, negsuc, sub_ℕ}

-- `==` on strings
abbrev pub same : String → String → Bool
same s t = text_eq s t

infixr 66 ◌<>◌
abbrev pub ◌<>◌ : String → String → String
s <> t = String.◌++◌ s t

-- `strings.TrimSuffix`
unfoldable pub trim_suffix : String → String → String
trim_suffix [] suffix = []
trim_suffix (c ∷ s) suffix = if same (c ∷ s) suffix then [] else c ∷ trim_suffix s suffix

-- `strings.HasPrefix`
unfoldable pub has_prefix : String → String → Bool
has_prefix s [] = true
has_prefix [] (d ∷ p) = false
has_prefix (c ∷ s) (d ∷ p) = (code c == code d) && has_prefix s p

-- `strings.Contains`
unfoldable pub contains : String → String → Bool
unfolding has_prefix
contains [] part = has_prefix [] part
contains (c ∷ s) part = has_prefix (c ∷ s) part || contains s part

-- `strings.Split` at a separator of one character
abbrev with_first : Char → List String → List String
with_first c List.[] = List.◌∷◌ (c ∷ []) List.[]
with_first c (List.◌∷◌ part parts) = List.◌∷◌ (c ∷ part) parts

unfoldable pub split : ℕ → String → List String
split sep [] = List.◌∷◌ [] List.[]
split sep (c ∷ s) = if code c == sep then List.◌∷◌ [] (split sep s) else with_first c (split sep s)

abbrev pub is_digit : ℕ → Bool
is_digit c = leb b'0' c && leb c b'9'

-- The digits of a decimal number, read from the left, up to the end or to another character.
module _ {B : Type 0} (stop finish : ℕ → B) where
  unfoldable pub scan_digits : ℕ → String → B
  scan_digits n [] = finish n
  scan_digits n (c ∷ s) =
      let rest = scan_digits (n * 10 + (code c - b'0')) s in
      if is_digit (code c) then rest else stop n

abbrev pub digits_from : ℕ → String → Option ℕ
unfolding scan_digits
digits_from = scan_digits (λ n. none) (λ n. some n)

-- The number that a text begins with.
abbrev pub leading : ℕ → String → ℕ
unfolding scan_digits
leading = scan_digits (λ n. n) (λ n. n)

-- The range check of a 64-bit `int`.
abbrev pub in_int64 : Bool → Option ℕ → Option ℤ
in_int64 negative none = none
in_int64 false (some n) = if ltb n (2 ^ 63) then some (pos n) else none
in_int64 true (some n) = if leb n (2 ^ 63) then some (sub_ℕ 0 n) else none

abbrev unsigned : Bool → String → Option ℤ
unsigned negative [] = none
unsigned negative (c ∷ s) = in_int64 negative (digits_from 0 (c ∷ s))

-- `strconv.Atoi`: an optional sign, then one or more digits, within 64 bits.
unfoldable pub atoi : String → Option ℤ
unfolding scan_digits
atoi [] = none
atoi (c ∷ s) =
    if code c == b'-'
    then unsigned true s
    else if code c == b'+'
    then unsigned false s
    else unsigned false (c ∷ s)

atoi_tests :
    (atoi "42" ≡ some (pos 42))
    × (atoi "-7" ≡ some (negsuc 6))
    × (atoi "" ≡ none)
    × (atoi "1x" ≡ none)
    × (atoi "9223372036854775808" ≡ none)
unfolding atoi
atoi_tests = (refl, refl, refl, refl, refl)

text_tests :
    (trim_suffix "email,omitempty" ",omitempty" ≡ "email")
    × (trim_suffix "-" ",omitempty" ≡ "-")
    × (split b':' "email:asc" ≡ List.◌∷◌ "email" (List.◌∷◌ "asc" List.[]))
unfolding trim_suffix split
text_tests = (refl, refl, refl)

-- `unicode.IsSpace`
abbrev pub is_space : ℕ → Bool
is_space c =
    (leb 9 c && leb c 13)
    || c == 32
    || c == 133
    || c == 160
    || c == 5760
    || (leb 8192 c && leb c 8202)
    || c == 8232
    || c == 8233
    || c == 8239
    || c == 8287
    || c == 12288

-- `strings.TrimSpace`
unfoldable pub trim_left : String → String
trim_left [] = []
trim_left (c ∷ s) = let rest = trim_left s in if is_space (code c) then rest else c ∷ s

abbrev end_trimmed : Char → String → String
end_trimmed c [] = if is_space (code c) then [] else c ∷ []
end_trimmed c (d ∷ s) = c ∷ d ∷ s

unfoldable pub trim_right : String → String
trim_right [] = []
trim_right (c ∷ s) = end_trimmed c (trim_right s)

unfoldable pub trim_space : String → String
unfolding trim_left trim_right
trim_space s = trim_right (trim_left s)

-- What stands before the first character `sep`, and what stands after it, if it is there.
abbrev pub before_after : Char → Option (String × String) → Option (String × String)
before_after c none = none
before_after c (some (before, after)) = some (c ∷ before, after)

unfoldable pub cut_at : ℕ → String → Option (String × String)
cut_at sep [] = none
cut_at sep (c ∷ s) =
    let rest = cut_at sep s in if code c == sep then some ([], s) else before_after c rest

trim_tests :
    (trim_space " 10.0.0.1\t" ≡ "10.0.0.1")
    × (cut_at b',' "a,b,c" ≡ some ("a", "b,c"))
    × (cut_at b',' "abc" ≡ none)
unfolding trim_space trim_left trim_right cut_at
trim_tests = (refl, refl, refl)

-- Tests on the empty text.
abbrev pub non_empty : String → Option String
non_empty [] = none
non_empty (c ∷ s) = some (c ∷ s)

abbrev pub or_empty : Option String → String
or_empty none = ""
or_empty (some s) = s

pub or_empty-non_empty : (s : String) → or_empty (non_empty s) ≡ s
or_empty-non_empty [] = refl
or_empty-non_empty (c ∷ s) = refl

-- A text that begins with another is that text and more.
pub has_prefix-rest : (s p : String) → has_prefix s p ≡ true → (t : String) × (s ≡ p <> t)
unfolding has_prefix
has_prefix-rest s [] h = (s, sym (nil-append s))
has_prefix-rest [] (d ∷ p) h = cc
has_prefix-rest (c ∷ s) (d ∷ p) h =
    let equal : code c ≡ code d = ground arith in
    let inside : has_prefix s p ≡ true = ground arith in
    let (t, more) = has_prefix-rest s p inside in
    (t, ap (λ x. x ∷ s) (Char-path c d equal) ∙ ap (λ x. d ∷ x) more ∙ sym (cons-append d p t))

has_prefix-empty : (s : String) → has_prefix s [] ≡ true
unfolding has_prefix
has_prefix-empty [] = refl
has_prefix-empty (c ∷ s) = refl

pub code_refl : (n : ℕ) → (n == n) ≡ true
code_refl n = ground arith

-- A text begins with the front of which it is made.
pub has_prefix-append : (p s : String) → has_prefix (p <> s) p ≡ true
unfolding has_prefix
has_prefix-append [] s = has_prefix-empty ([] <> s)
has_prefix-append (c ∷ p) s = rw (cons-append, has_prefix-append p s, code_refl (code c))
