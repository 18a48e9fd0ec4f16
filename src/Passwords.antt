-- ===== src/Passwords.antt =====
-- pkg/utils/password.go. Argon2 is a parameter, and so are the random bytes.
pub mod Verified
mod Tests
use student_system_go.Common.{
  ℕ, ◌≡◌, String, Bool, true, false, ◌&&◌, not, Option, none, some, List, [], ◌∷◌, All, length,
  ◌==◌, if◌then◌else◌,
}
use student_system_go.Common.Text.{same, ◌<>◌, split}
use student_system_go.Go.{Result, ok, err, ⊤}
use student_system_go.Codes.{Bytes, IsBytes}
use student_system_go.Codes.Base64

-- `argon2.IDKey(password, salt, 1, 64*1024, 3, 32)`
abbrev pub Argon2 : Type 0
Argon2 = String → Bytes → Bytes

-- What is documented of it: a key of 32 bytes.
pub record IsArgon2 (argon2 : Argon2) : Type 0 where
  pub key_length : (p : String) (salt : Bytes) → length (argon2 p salt) ≡ 32
  pub key_bytes : (p : String) (salt : Bytes) → IsBytes (argon2 p salt)

-- `subtle.ConstantTimeCompare(x, y) == 1`
unfoldable pub same_bytes : Bytes → Bytes → Bool
same_bytes [] [] = true
same_bytes [] (y ∷ ys) = false
same_bytes (x ∷ xs) [] = false
same_bytes (x ∷ xs) (y ∷ ys) = (x == y) && same_bytes xs ys

module _ (argon2 : Argon2) where
  abbrev compared : Bytes → Bytes → Result ⊤
  unfolding same_bytes
  compared hash expected =
      if not (length hash == length expected)
      then err "password does not match"
      else if same_bytes hash expected
      then ok tt
      else err "incorrect password"

  abbrev pub with_parts : String → Option Bytes → Option Bytes → Result ⊤
  unfolding same_bytes
  with_parts password (some salt) (some expected) = compared (argon2 password salt) expected
  with_parts password _ _ = err "internal server error"

  abbrev pub verify_parts : String → List String → Result ⊤
  unfolding same_bytes Base64.decode
  verify_parts password (salt ∷ hash ∷ []) =
      with_parts password (Base64.decode salt) (Base64.decode hash)
  verify_parts password _ = err "internal server error"

  -- `VerifyPassword`
  unfoldable pub verify_password : String → String → Result ⊤
  unfolding same_bytes Base64.decode split
  verify_password password encoded = verify_parts password (split b'.' encoded)

  abbrev pub hashed : String → Option Bytes → Result String
  unfolding Base64.encode
  hashed password none = err "failed to generate salt for password hashing"
  hashed password (some salt) =
      ok (Base64.encode salt <> "." <> Base64.encode (argon2 password salt))

  -- `HashPassword`; the second argument is what `rand.Read` makes of 16 bytes.
  unfoldable pub hash_password : String → Option Bytes → Result String
  unfolding Base64.encode
  hash_password password salt =
      if same password "" then err "please enter a password for the exec" else hashed password salt
