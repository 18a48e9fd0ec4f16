-- ===== src/Codes/Base64.antt =====
-- `encoding/base64`, the standard encoding
use student_system_go.Common.{
  ℕ, ◌+◌, ◌*◌, ◌/◌, ◌%◌, ◌<◌, ◌≡◌, refl, ap, ◌∙◌, Char, code, String, true, false, ◌||◌, not,
  Option, none, some, [], ◌∷◌, ◌==◌, if◌then◌else◌, arith,
}
use student_system_go.Codes.{
  Bytes, IsBytes, nth_letter, position, check_below, check_below-true, is_value, is_value-some,
  Avoids, not-false,
}

abbrev pub letters : String
letters = "ABCDEFGHIJKLMNOPQRSTUVWXYZabcdefghijklmnopqrstuvwxyz0123456789+/"

-- `base64.StdEncoding.EncodeToString`
unfoldable pub encode : Bytes → String
unfolding nth_letter
encode [] = ""
encode (a ∷ []) =
    String.◌∷◌ (nth_letter letters (a / 4)) (String.◌∷◌ (nth_letter letters (a % 4 * 16)) "==")
encode (a ∷ b ∷ []) = String.◌∷◌ (nth_letter letters (a / 4)) (
    String.◌∷◌ (nth_letter letters (a % 4 * 16 + b / 16))
      (String.◌∷◌ (nth_letter letters (b % 16 * 4)) "="))
encode (a ∷ b ∷ c ∷ bs) = String.◌∷◌ (nth_letter letters (a / 4)) (
    String.◌∷◌ (nth_letter letters (a % 4 * 16 + b / 16)) (
      String.◌∷◌ (nth_letter letters (b % 16 * 4 + c / 64))
        (String.◌∷◌ (nth_letter letters (c % 64)) (encode bs))))

unfoldable pub value : Char → Option ℕ
unfolding position
value c = position letters 0 c

abbrev pub one_byte : Option ℕ → Option ℕ → Option Bytes
one_byte (some p) (some q) = some ((p * 4 + q / 16) ∷ [])
one_byte _ _ = none

abbrev pub two_bytes : Option ℕ → Option ℕ → Option ℕ → Option Bytes
two_bytes (some p) (some q) (some r) = some ((p * 4 + q / 16) ∷ (q % 16 * 16 + r / 4) ∷ [])
two_bytes _ _ _ = none

abbrev pub three_bytes : Option ℕ → Option ℕ → Option ℕ → Option ℕ → Option Bytes → Option Bytes
three_bytes (some p) (some q) (some r) (some s) (some bs) =
    some ((p * 4 + q / 16) ∷ (q % 16 * 16 + r / 4) ∷ (r % 4 * 64 + s) ∷ bs)
three_bytes _ _ _ _ _ = none

abbrev pub at_end : String → Option Bytes → Option Bytes
at_end String.[] o = o
at_end (String.◌∷◌ c s) o = none

-- Four letters at a time; padding stands at the end alone.
unfoldable pub decode_quads : String → Option Bytes
unfolding value
decode_quads String.[] = some []
decode_quads (String.◌∷◌ p (String.◌∷◌ q (String.◌∷◌ r (String.◌∷◌ s rest)))) =
    if code s == b'='
    then at_end rest (
        if code r == b'='
        then one_byte (value p) (value q)
        else two_bytes (value p) (value q) (value r))
    else three_bytes (value p) (value q) (value r) (value s) (decode_quads rest)
decode_quads _ = none

-- Line ends are passed over.
unfoldable pub without_line_ends : String → String
without_line_ends String.[] = ""
without_line_ends (String.◌∷◌ c s) =
    let rest = without_line_ends s in
    if code c == 10 || code c == 13 then rest else String.◌∷◌ c rest

-- `base64.StdEncoding.DecodeString`
unfoldable pub decode : String → Option Bytes
unfolding decode_quads without_line_ends
decode s = decode_quads (without_line_ends s)

code_tests :
    (encode (77 ∷ 97 ∷ 110 ∷ 77 ∷ []) ≡ "TWFuTQ==")
    × (decode "TWFuTQ==" ≡ some (77 ∷ 97 ∷ 110 ∷ 77 ∷ []))
    × (decode "TWE=TQ==" ≡ none)
unfolding encode decode
code_tests = (refl, refl, refl)

value-nth_letter : (n : ℕ) → n < 64 → value (nth_letter letters n) ≡ some n
unfolding value nth_letter check_below
value-nth_letter n l =
    is_value-some _ n
      (check_below-true 64 (λ m. is_value (value (nth_letter letters m)) m) refl n l)

-- No letter is the padding.
letter-ne-padding : (n : ℕ) → n < 64 → (code (nth_letter letters n) == b'=') ≡ false
unfolding nth_letter check_below
letter-ne-padding n l =
    not-false _ (check_below-true 64 (λ m. not (code (nth_letter letters m) == b'=')) refl n l)

decode_quads-encode : (bs : Bytes) → IsBytes bs → decode_quads (encode bs) ≡ some bs
unfolding decode_quads encode
decode_quads-encode [] h = refl
decode_quads-encode (a ∷ []) h =
    rw (value-nth_letter (a / 4) (omega arith), value-nth_letter (a % 4 * 16) (omega arith))
      (ap (λ n. some (n ∷ [])) (omega arith))
decode_quads-encode (a ∷ b ∷ []) h =
    rw
      (
        letter-ne-padding (b % 16 * 4) (omega arith),
        value-nth_letter (a / 4) (omega arith),
        value-nth_letter (a % 4 * 16 + b / 16) (omega arith),
        value-nth_letter (b % 16 * 4) (omega arith),
      )
      (ground arith)
decode_quads-encode (a ∷ b ∷ c ∷ bs) h =
    rw
      (
        letter-ne-padding (c % 64) (omega arith),
        value-nth_letter (a / 4) (omega arith),
        value-nth_letter (a % 4 * 16 + b / 16) (omega arith),
        value-nth_letter (b % 16 * 4 + c / 64) (omega arith),
        value-nth_letter (c % 64) (omega arith),
        decode_quads-encode bs h.1.1.1,
      )
      (ground arith)

-- A character that is no letter and not the padding stands in no code.
encode-Avoids :
    (n : ℕ)
    → ((m : ℕ) → m < 64 → (code (nth_letter letters m) == n) ≡ false)
    → (b'=' == n) ≡ false
    → (bs : Bytes) → IsBytes bs
    → Avoids n (encode bs)
unfolding encode
encode-Avoids n h k [] d = tt
encode-Avoids n h k (a ∷ []) d =
    (h (a / 4) (omega arith), (h (a % 4 * 16) (omega arith), (k, (k, tt))))
encode-Avoids n h k (a ∷ b ∷ []) d = (
  h (a / 4) (omega arith),
  (h (a % 4 * 16 + b / 16) (omega arith), (h (b % 16 * 4) (omega arith), (k, tt))),
)
encode-Avoids n h k (a ∷ b ∷ c ∷ bs) d = (
  h (a / 4) (omega arith),
  (
    h (a % 4 * 16 + b / 16) (omega arith),
    (
      h (b % 16 * 4 + c / 64) (omega arith),
      (h (c % 64) (omega arith), encode-Avoids n h k bs d.1.1.1),
    ),
  ),
)

letter_is_not :
    (n : ℕ)
    → check_below 64 (λ m. not (code (nth_letter letters m) == n)) ≡ true
    → (m : ℕ) → m < 64
    → (code (nth_letter letters m) == n) ≡ false
letter_is_not n h m l =
    not-false _ (check_below-true 64 (λ m. not (code (nth_letter letters m) == n)) h m l)

pub encode-Avoids_dot : (bs : Bytes) → IsBytes bs → Avoids b'.' (encode bs)
unfolding nth_letter check_below
encode-Avoids_dot = encode-Avoids b'.' (letter_is_not b'.' refl) refl

without_line_ends-same : (s : String) → Avoids 10 s → Avoids 13 s → without_line_ends s ≡ s
unfolding without_line_ends
without_line_ends-same String.[] h k = refl
without_line_ends-same (String.◌∷◌ c s) h k =
    rw (h.0, k.0) (ap (λ t. String.◌∷◌ c t) (without_line_ends-same s h.1 k.1))

pub decode-encode : (bs : Bytes) → IsBytes bs → decode (encode bs) ≡ some bs
unfolding decode nth_letter check_below
decode-encode bs h =
    ap decode_quads (
      without_line_ends-same (encode bs) (encode-Avoids 10 (letter_is_not 10 refl) refl bs h)
        (encode-Avoids 13 (letter_is_not 13 refl) refl bs h))
    ∙ decode_quads-encode bs h
