-- ===== src/Repo/Photo/Rows.antt =====
-- What is documented of the two statements on the photo column.
use mathlib.Core.Option
use student_system_go.Common.{
  ℕ, ◌≡◌, String, Bool, true, false, Option, none, some, List, [], ◌∷◌, if◌then◌else◌,
}
use student_system_go.Common.Int.{ℤ, ◌==ℤ◌}
use student_system_go.Common.Text.{same}
use student_system_go.Reflect.{Value, int, null_or_text}
use student_system_go.Sql.{Sql, done, refused}
use student_system_go.Entity.{Entity}

-- The photo column of each row: `none` without a row, `some none` for NULL.
abbrev pub Photos : Type 0
Photos = ℤ → Option (Option String)

abbrev pub set_photo : ℤ → Option String → Photos → Photos
set_photo id k v j = if j ==ℤ id then Option.map (λ old. k) (v j) else v j

abbrev pub same_key : Option String → Option String → Bool
same_key none none = true
same_key (some a) (some b) = same a b
same_key _ _ = false

-- MySQL counts the rows that an UPDATE changes, not those that it matches, unless the client asks for
-- the latter (`clientFoundRows`), which the data source name does not.
abbrev pub changed : Option String → Option (Option String) → ℕ
changed k none = 0
changed k (some old) = if same_key old k then 0 else 1

pub record IsPhotoTable (db : Sql) {R : Type 0} (e : Entity R) : Type 0 where
  pub photos : db.S → Photos
  pub photo_update :
      (id : ℤ) (k : Option String) (s : db.S) (n : Option ℕ) (l : Option ℤ)
      → (db.exec e.update_photo (null_or_text k ∷ int id ∷ []) s).0 ≡ done n l
      → (j : ℤ)
      → photos (db.exec e.update_photo (null_or_text k ∷ int id ∷ []) s).1 j
        ≡ set_photo id k (photos s) j
  pub photo_count :
      (id : ℤ) (k : Option String) (s : db.S) (n : ℕ) (l : Option ℤ)
      → (db.exec e.update_photo (null_or_text k ∷ int id ∷ []) s).0 ≡ done (some n) l
      → n ≡ changed k (photos s id)
  pub photo_refused :
      (q : String) (args : List Value) (s : db.S) (cause : String)
      → (db.exec q args s).0 ≡ refused cause
      → (j : ℤ) → photos (db.exec q args s).1 j ≡ photos s j
