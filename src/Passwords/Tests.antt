-- ===== src/Passwords/Tests.antt =====
-- Runs of the hashing.
use student_system_go.Common.{
  ℕ, ◌≡◌, ◌≢◌, refl, inl, inr, Bool-cases, ◌⊎◌, String, some, [], ◌∷◌, ◌++◌, arith, if◌then◌else◌,
  eq_iff,
}
use student_system_go.Common.Text.{same}
use student_system_go.Go.{ok, err}
use student_system_go.Codes.{Bytes}
use student_system_go.Passwords.{Argon2, IsArgon2, verify_password, hash_password}
use student_system_go.Passwords.Verified.{hash_password-verify_password}

abbrev sixteen : ℕ → Bytes
sixteen n = n ∷ n ∷ n ∷ n ∷ n ∷ n ∷ n ∷ n ∷ n ∷ n ∷ n ∷ n ∷ n ∷ n ∷ n ∷ n ∷ []

-- A key function that tells one password from the others.
abbrev weak : Argon2
weak password salt =
    if same password "secret" then sixteen 7 ++ sixteen 1 else sixteen 7 ++ sixteen 2

weak-IsArgon2 : IsArgon2 weak
weak-IsArgon2 = record {
  key_length =
      λ p salt. elim (Bool-cases (same p "secret")) [ inl one ↦ rw one | inr other ↦ rw other ];
  key_bytes = λ p salt. elim (Bool-cases (same p "secret")) [
    | inl one ↦ rw one (omega arith)
    | inr other ↦ rw other (omega arith)
  ];
}

password_tests :
    (hash_password weak "secret" (some (sixteen 0))
      ≡ ok "AAAAAAAAAAAAAAAAAAAAAA==.BwcHBwcHBwcHBwcHBwcHBwEBAQEBAQEBAQEBAQEBAQE=")
    × (verify_password weak "secret"
          "AAAAAAAAAAAAAAAAAAAAAA==.BwcHBwcHBwcHBwcHBwcHBwEBAQEBAQEBAQEBAQEBAQE="
        ≡ ok tt)
    × (verify_password weak "other"
          "AAAAAAAAAAAAAAAAAAAAAA==.BwcHBwcHBwcHBwcHBwcHBwEBAQEBAQEBAQEBAQEBAQE="
        ≡ err "incorrect password")
    × (verify_password weak "other" "plain" ≡ err "internal server error")
unfolding hash_password verify_password
password_tests = (refl, refl, refl, refl)

not_empty : ◌≢◌ {A = String} "secret" ""
not_empty = ground (arith, eq_iff "secret" "")

hash_password-verify_password_example :
    (stored : String) × (hash_password weak "secret" (some (sixteen 0)) ≡ ok stored)
    × ((q : String)
        → ((weak q (sixteen 0) ≡ weak "secret" (sixteen 0))
            × (verify_password weak q stored ≡ ok tt))
          ⊎ ((weak q (sixteen 0) ≢ weak "secret" (sixteen 0))
              × (verify_password weak q stored ≡ err "incorrect password")))
hash_password-verify_password_example =
    hash_password-verify_password weak-IsArgon2 "secret" (sixteen 0) not_empty (omega arith)
