-- ===== src/Passwords/Verified.antt =====
-- A password that was hashed verifies, and another one does so only if Argon2 cannot tell them apart.
use package.text.Mathlib.TextLemmas.{nil-append, cons-append}
use mathlib.Core.Bool.{false≢true}
use student_system_go.Common.{
  ◌≡◌, ◌≢◌, refl, sym, ap, ◌∙◌, ◌⊎◌, inl, inr, String, true, Option, none, some, List, [], ◌∷◌,
  length, ◌==◌, arith, Bool-cases, eq_iff,
}
use student_system_go.Common.Text.{same, ◌<>◌, split}
use student_system_go.Go.{ok, err, panic}
use student_system_go.Codes.{Bytes, IsBytes, split-two}
use student_system_go.Codes.Base64
use student_system_go.Passwords.{
  Argon2, IsArgon2, same_bytes, verify_parts, with_parts, verify_password, compared, hash_password,
}

same_bytes-eq : (xs ys : Bytes) → same_bytes xs ys ≡ true → xs ≡ ys
unfolding same_bytes
same_bytes-eq [] [] h = refl
same_bytes-eq [] (y ∷ ys) h = cc
same_bytes-eq (x ∷ xs) [] h = cc
same_bytes-eq (x ∷ xs) (y ∷ ys) h = elim (Bool-cases (x == y)) [
  | inl equal ↦
      let tail = same_bytes-eq xs ys (rw equal at h) in let head : x ≡ y = ground arith in cc
  | inr other ↦ cc (rw other at h)
]

same_bytes_refl : (xs : Bytes) → same_bytes xs xs ≡ true
unfolding same_bytes
same_bytes_refl [] = refl
same_bytes_refl (x ∷ xs) = rw (same_bytes_refl xs) (ground arith)

pub joined : Bytes → Bytes → String
joined salt key = Base64.encode salt <> "." <> Base64.encode key

split-joined :
    (salt key : Bytes)
    → IsBytes salt
    → IsBytes key
    → split b'.' (joined salt key) ≡ Base64.encode salt ∷ Base64.encode key ∷ []
unfolding joined
split-joined salt key bytes key_bytes =
    ap (λ t. split b'.' (Base64.encode salt <> t))
      (cons-append "." "" (Base64.encode key)
        ∙ ap (λ t. String.◌∷◌ "." t) (nil-append (Base64.encode key)))
    ∙ split-two "." (Base64.encode salt) (Base64.encode key) (Base64.encode-Avoids_dot salt bytes)
        (Base64.encode-Avoids_dot key key_bytes)

pub hash_password-joined :
    (argon2 : Argon2) (p : String) (salt : Bytes)
    → p ≢ ""
    → hash_password argon2 p (some salt) ≡ ok (joined salt (argon2 p salt))
unfolding hash_password joined
hash_password-joined argon2 p salt given = elim (Bool-cases (same p "")) [
  | inl empty ↦ absurd (given ((eq_iff p "").0 empty))
  | inr other ↦ rw other
]

module _ {argon2 : Argon2} (laws : IsArgon2 argon2) where
  verify_password-joined :
      (p q : String) (salt : Bytes)
      → IsBytes salt
      → verify_password argon2 q (joined salt (argon2 p salt))
        ≡ compared argon2 (argon2 q salt) (argon2 p salt)
  unfolding verify_password
  verify_password-joined p q salt bytes =
      ap (verify_parts argon2 q) (split-joined salt (argon2 p salt) bytes (laws.key_bytes p salt))
      ∙ rw (
        Base64.decode-encode salt bytes,
        Base64.decode-encode (argon2 p salt) (laws.key_bytes p salt),
      )

  compared-keys :
      (p q : String) (salt : Bytes)
      → ((argon2 q salt ≡ argon2 p salt)
          × (compared argon2 (argon2 q salt) (argon2 p salt) ≡ ok tt))
        ⊎ ((argon2 q salt ≢ argon2 p salt)
            × (compared argon2 (argon2 q salt) (argon2 p salt) ≡ err "incorrect password"))
  unfolding same_bytes
  compared-keys p q salt =
      let lengths : (length (argon2 q salt) == length (argon2 p salt)) ≡ true =
        rw (laws.key_length q salt, laws.key_length p salt) in
      elim (Bool-cases (same_bytes (argon2 q salt) (argon2 p salt))) [
        | inl equal ↦ inl (same_bytes-eq _ _ equal, rw (lengths, equal))
        | inr other ↦ inr (
          λ e. absurd (
              false≢true (
                sym other
                ∙ ap (same_bytes (argon2 q salt)) (sym e)
                ∙ same_bytes_refl (argon2 q salt))),
          rw (lengths, other),
        )
      ]

  -- A non-empty password is hashed to a text. A password verifies against this text if Argon2 makes the
  -- same key of both with the salt that was drawn, as it does of the password itself; otherwise the
  -- check fails with "incorrect password".
  pub hash_password-verify_password :
      (p : String) (salt : Bytes)
      → p ≢ ""
      → IsBytes salt
      → (stored : String) × (hash_password argon2 p (some salt) ≡ ok stored)
        × ((q : String)
            → ((argon2 q salt ≡ argon2 p salt) × (verify_password argon2 q stored ≡ ok tt))
              ⊎ ((argon2 q salt ≢ argon2 p salt)
                  × (verify_password argon2 q stored ≡ err "incorrect password")))
  hash_password-verify_password p salt given bytes = (
    joined salt (argon2 p salt),
    hash_password-joined argon2 p salt given,
    λ q. elim (compared-keys p q salt) [
      | inl same_key ↦ inl (same_key.0, verify_password-joined p q salt bytes ∙ same_key.1)
      | inr other ↦ inr (other.0, verify_password-joined p q salt bytes ∙ other.1)
    ],
  )

pub hash_password-ne-panic :
    (argon2 : Argon2) (p : String) (salt : Option Bytes) → hash_password argon2 p salt ≢ panic
unfolding hash_password
hash_password-ne-panic argon2 p none h = ground arith
hash_password-ne-panic argon2 p (some salt) h = ground arith

pub verify_password-ne-panic :
    (argon2 : Argon2) (p encoded : String) → verify_password argon2 p encoded ≢ panic
unfolding verify_password
verify_password-ne-panic argon2 p encoded = go (split b'.' encoded)
  where
    checked : (o q : Option Bytes) → with_parts argon2 p o q ≢ panic
    checked none q h = cc
    checked (some salt) none h = cc
    checked (some salt) (some expected) h = ground arith

    go : (parts : List String) → verify_parts argon2 p parts ≢ panic
    go [] h = cc
    go (a ∷ []) h = cc
    go (a ∷ b ∷ []) h = checked (Base64.decode a) (Base64.decode b) h
    go (a ∷ b ∷ c ∷ parts) h = cc
