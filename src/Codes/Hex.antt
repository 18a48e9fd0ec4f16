-- ===== src/Codes/Hex.antt =====
-- `encoding/hex`
use student_system_go.Common.{
  ℕ, ◌+◌, ◌*◌, ◌/◌, ◌%◌, ◌<◌, ◌≡◌, refl, ap, Char, String, Option, none, some, [], ◌∷◌, arith,
}
use student_system_go.Codes.{
  Bytes, IsBytes, nth_letter, position, with_byte, check_below, check_below-true, is_value,
  is_value-some,
}

abbrev pub letters : String
letters = "0123456789abcdef"

-- `hex.EncodeToString`
unfoldable pub encode : Bytes → String
unfolding nth_letter
encode [] = ""
encode (b ∷ bs) =
    String.◌∷◌ (nth_letter letters (b / 16)) (String.◌∷◌ (nth_letter letters (b % 16)) (encode bs))

-- Capital letters are read too.
abbrev pub or_capital : Option ℕ → Option ℕ → Option ℕ
or_capital none (some n) = some (n + 10)
or_capital o _ = o

unfoldable pub value : Char → Option ℕ
unfolding position
value c = or_capital (position letters 0 c) (position "ABCDEF" 0 c)

abbrev pub join : Option ℕ → Option ℕ → Option ℕ
join (some h) (some l) = some (h * 16 + l)
join _ _ = none

-- `hex.DecodeString`
unfoldable pub decode : String → Option Bytes
unfolding value
decode String.[] = some []
decode (String.◌∷◌ c String.[]) = none
decode (String.◌∷◌ c (String.◌∷◌ d s)) = with_byte (join (value c) (value d)) (decode s)

code_tests :
    (encode (171 ∷ 5 ∷ []) ≡ "ab05") × (decode "AB05" ≡ some (171 ∷ 5 ∷ [])) × (decode "abc" ≡ none)
unfolding encode decode
code_tests = (refl, refl, refl)

value-nth_letter : (n : ℕ) → n < 16 → value (nth_letter letters n) ≡ some n
unfolding value nth_letter check_below
value-nth_letter n l =
    is_value-some _ n
      (check_below-true 16 (λ m. is_value (value (nth_letter letters m)) m) refl n l)

pub decode-encode : (bs : Bytes) → IsBytes bs → decode (encode bs) ≡ some bs
unfolding decode encode
decode-encode [] h = refl
decode-encode (b ∷ bs) h =
    rw
      (
        value-nth_letter (b / 16) (omega arith),
        value-nth_letter (b % 16) (omega arith),
        decode-encode bs h.1,
      )
      (ap (λ n. some (n ∷ bs)) (omega arith))
