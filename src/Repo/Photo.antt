-- ===== src/Repo/Photo.antt =====
-- students_photo.go, teachers_photo.go and execs_photo.go of internal/repository/sqlconnect: the
-- photo column of one row.
pub mod Rows
pub mod Keys
pub mod Memory
use mathlib.Core.Path.{fun_ext, subst}
use mathlib.Core.Option
use student_system_go.Common.{
  ℕ, zero, suc, ◌==◌, ◌≡◌, ◌≢◌, refl, ◌∙◌, sym, ap, ◌⊎◌, inl, inr, String, Bool, true, false,
  Option, none, some, List, [], ◌∷◌, arith, eq_refl, if◌then◌else◌, Option-cases,
}
use student_system_go.Common.Int.{ℤ, ◌==ℤ◌, ==ℤ_refl}
use student_system_go.Common.Text.{non_empty, or_empty, or_empty-non_empty, same}
use student_system_go.Go.{Result, ok, err, panic, ⊤, Call, pure, raise, gets, ◌>>=◌, ◌>>◌}
use student_system_go.Reflect.{Value, null, int, text, null_or_text}
use student_system_go.Sql.{
  Sql, Row, row, no_rows, failed, Done, done, refused, Pool, connect_db, connect_read_db, affected,
}
use student_system_go.Entity.{Entity}
use student_system_go.Repo.{
  Found, found, absent, broken, or_raise, connect, connect_read, exec, not_refused,
}

-- `Scan(&key)` into a `sql.NullString`
abbrev pub scan_key : Row → Found (Option String)
scan_key (row (null ∷ [])) = found none
scan_key (row (text s ∷ [])) = found (some s)
scan_key (row _) = broken
scan_key no_rows = absent
scan_key failed = broken

-- `rows, _ := res.RowsAffected()`: zero where the driver cannot tell.
abbrev pub rows_of : Option ℕ → ℕ
rows_of none = 0
rows_of (some n) = n

module _ (db : Sql) {R : Type 0} (e : Entity R) where
  -- `GetStudentPhotoKey`
  unfoldable pub get_photo_key : ℤ → Call (Pool db) String
  unfolding connect_read_db
  get_photo_key id = do
    connect_read db
    result ← gets λ p. scan_key (db.read_row e.select_photo (int id ∷ []) p.server)
    key ← or_raise result e.messages.not_found e.messages.photo_query_failed
    pure (or_empty key)

  -- `SetStudentPhotoKey`
  unfoldable pub set_photo_key : ℤ → String → Call (Pool db) ⊤
  unfolding connect_db
  set_photo_key id key = do
    connect db
    d ← exec db e.update_photo (null_or_text (non_empty key) ∷ int id ∷ [])
    (n, l) ← not_refused db d (λ cause. e.messages.photo_update_failed)
    if rows_of n == 0 then raise e.messages.not_found else pure tt
