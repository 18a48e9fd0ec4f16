-- ===== src/Accounts/Tests.antt =====
-- Runs of the accounts, and the theorems at a server with one exec.
use mathlib.Core.Path.{subst}
use student_system_go.Common.{
  ◌≡◌, ◌≢◌, refl, sym, ◌∙◌, String, true, false, some, [], ◌∷◌, arith, eq_iff,
}
use student_system_go.Common.Int.{ℤ, pos}
use student_system_go.Go.{ok, err, panic}
use student_system_go.Reflect.{int, text}
use student_system_go.Reflect.Keeps.{some-inj}
use student_system_go.Models.{Exec, zero_exec}
use student_system_go.Codes.{Bytes, IsBytes}
use student_system_go.Codes.Hex
use student_system_go.Passwords.{Argon2}
use student_system_go.Sql.{Pool, refused, failed}
use student_system_go.Reflect.Decode.{equal_fold}
use student_system_go.Accounts.{
  Clock, Draw, ResetTokenInfo, select_by_code, reset_query, invalid_code, reset_password_db_handler,
  prepare_reset_token, prepare_found, prepare_drawn, store_token, reset_found, reset_bytes,
}
use student_system_go.Accounts.Reset.{ResetEnds, reset_password_db_handler-ResetEnds}
use student_system_go.Accounts.Prepare.{PrepareEnds, prepare_reset_token-PrepareEnds}
use student_system_go.Accounts.Tokens.{
  IsOnly, reset_password_db_handler-twice, prepare_reset_token-reset_password_db_handler,
}
use student_system_go.Accounts.Memory.{one_account, one_account-IsAccounts, only-id}

-- A clock of minutes.
abbrev minutes : Clock
minutes = record {
  Time = ℤ;
  add_minutes = λ d t. d;
  date_time = λ t. "expiry";
  rfc3339 = λ t. "now";
}

abbrev ada : Exec
ada = record zero_exec {
  id = pos 7;
  email = "ada@x";
  username = "ada";
  password = "old";
  role = "admin";
}

abbrev pool : Pool one_account
pool = record { ready = true; read_ready = true; server = ada }

abbrev first : Draw minutes
first = record { now = pos 0; salt = some (1 ∷ []); token = some (171 ∷ 5 ∷ []) }

-- A hash and a key function that are easy to follow.
abbrev sum : Bytes → Bytes
sum bs = 9 ∷ bs

abbrev key : Argon2
key password salt = 2 ∷ salt

abbrev info : ResetTokenInfo minutes
info = record { token = "ab05"; username = "ada"; expires_at = pos 15 }

abbrev prepared : Exec
prepared = record ada {
  password_reset_code = some "09ab05";
  password_reset_code_expires = some "expiry";
}

abbrev pool_prepared : Pool one_account
pool_prepared = record { ready = true; read_ready = true; server = prepared }

abbrev pool_reset : Pool one_account
pool_reset = record {
  ready = true;
  read_ready = true;
  server = record ada { password = "AQ==.AgE="; password_changed_at = some "now" };
}

prepare_run :
    prepare_reset_token one_account minutes sum first "15" "ada@x" pool ≡ (ok info, pool_prepared)
unfolding prepare_reset_token prepare_found prepare_drawn store_token equal_fold
prepare_run = refl

reset_run :
    reset_password_db_handler one_account minutes sum key first "ab05" "new" pool_prepared
    ≡ (ok tt, pool_reset)
unfolding reset_password_db_handler reset_bytes reset_found
reset_run = refl

-- Without a pool the reset panics, where the other operations return an error.
closed_run :
    ((reset_password_db_handler one_account minutes sum key first "ab05" "new"
        (record { ready = false; read_ready = false; server = prepared })).0
      ≡ panic)
    × ((prepare_reset_token one_account minutes sum first "15" "ada@x"
          (record { ready = false; read_ready = false; server = prepared })).0
        ≡ err "Internal error")
unfolding reset_password_db_handler reset_bytes reset_found prepare_reset_token
closed_run = (refl, refl)

reset_password_db_handler-ResetEnds_example :
    ResetEnds one_account-IsAccounts minutes sum key first "ab05" "new" pool_prepared
      (reset_password_db_handler one_account minutes sum key first "ab05" "new" pool_prepared)
reset_password_db_handler-ResetEnds_example =
    reset_password_db_handler-ResetEnds one_account-IsAccounts minutes sum key first "ab05" "new"
      pool_prepared

prepare_reset_token-PrepareEnds_example :
    PrepareEnds one_account-IsAccounts minutes sum first "ada@x" pool
      (prepare_reset_token one_account minutes sum first "15" "ada@x" pool)
prepare_reset_token-PrepareEnds_example =
    prepare_reset_token-PrepareEnds one_account-IsAccounts minutes sum first "15" "ada@x" pool

one_row : IsOnly one_account-IsAccounts minutes sum key "09ab05" pool_prepared
unfolding one_account-IsAccounts
one_row i j a b hi hj ha hb = only-id prepared a i hi ∙ sym (only-id prepared b j hj)

reset_password_db_handler-twice_example :
    (reset_password_db_handler one_account minutes sum key first "ab05" "again" pool_reset).0
    ≡ err invalid_code
unfolding Hex.decode Hex.encode
reset_password_db_handler-twice_example =
    reset_password_db_handler-twice one_account-IsAccounts minutes sum key first first "ab05" "new"
      "again" (171 ∷ 5 ∷ []) pool_prepared pool_reset refl one_row reset_run

drawn_bytes : (b : Bytes) → some (171 ∷ 5 ∷ []) ≡ some b → IsBytes b
drawn_bytes b h = subst IsBytes (some-inj h) (omega arith)

new_is_given : ◌≢◌ {A = String} "new" ""
new_is_given = ground (arith, eq_iff "new" "")

answered :
    (code now : String)
    → one_account.query_row select_by_code (text code ∷ text now ∷ []) prepared ≢ failed
answered code now h = ground arith

accepted :
    (hash now : String) (id : ℤ) (cause : String)
    → (one_account.exec reset_query (text hash ∷ text now ∷ int id ∷ []) prepared).0 ≢ refused cause
accepted hash now id cause h = cc

later_than_now : one_account-IsAccounts.is_later "expiry" "now" ≡ true
unfolding one_account-IsAccounts
later_than_now = refl

prepare_reset_token-reset_password_db_handler_example :
    (reset_password_db_handler one_account minutes sum key first "ab05" "new" pool_prepared).0
    ≡ ok tt
prepare_reset_token-reset_password_db_handler_example =
    prepare_reset_token-reset_password_db_handler one_account-IsAccounts minutes sum key first first
      "15" "ada@x" "new" (1 ∷ []) pool pool_prepared info drawn_bytes prepare_run later_than_now
      new_is_given refl answered accepted
