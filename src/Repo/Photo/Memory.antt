-- ===== src/Repo/Photo/Memory.antt =====
-- A server that holds the photo column of the students. It meets the laws, so they can hold; the
-- examples run on it.
use student_system_go.Common.{
  ℕ, ◌≡◌, refl, ap, String, true, false, Option, none, some, List, [], ◌∷◌, inl, inr, Bool-cases,
  if◌then◌else◌,
}
use student_system_go.Common.Int.{ℤ}
use student_system_go.Common.Text.{same}
use student_system_go.Reflect.{Value, null, int, text, null_or_text}
use student_system_go.Entity.Students.{student_entity}
use student_system_go.Sql.{Sql, Row, row, no_rows, failed, Done, done, refused}
use student_system_go.Repo.Photo.Rows.{Photos, set_photo, changed, IsPhotoTable}

abbrev photo_row_of : Option (Option String) → Row
photo_row_of none = no_rows
photo_row_of (some k) = row (null_or_text k ∷ [])

abbrev select_photo : List Value → Photos → Row
select_photo (int id ∷ []) v = photo_row_of (v id)
select_photo _ v = failed

abbrev photo_args : List Value → Option (Option String × ℤ)
photo_args (null ∷ int id ∷ []) = some (none, id)
photo_args (text s ∷ int id ∷ []) = some (some s, id)
photo_args _ = none

abbrev applied : Option (Option String × ℤ) → Photos → Done × Photos
applied none v = (refused "syntax error", v)
applied (some (k, id)) v = (done (some (changed k (v id))) none, set_photo id k v)

abbrev update_photo : List Value → Photos → Done × Photos
update_photo args v = applied (photo_args args) v

abbrev pub photo_memory : Sql
photo_memory = record {
  S = Photos;
  query_row = λ q args v. failed;
  read_row = λ q args v. if same q student_entity.select_photo then select_photo args v else failed;
  query = λ q args v. none;
  prepare = λ q v. true;
  exec = λ q args v.
      if same q student_entity.update_photo then update_photo args v else (refused "unknown", v);
  begin = λ v. (false, v);
  tx_exec = λ q args v. (refused "no transaction", v);
  commit = λ v. (false, v);
  rollback = λ v. v;
}

pub update_photo-rows :
    (id : ℤ) (k : Option String) (v : Photos)
    → (update_photo (null_or_text k ∷ int id ∷ []) v).1 ≡ set_photo id k v
update_photo-rows id none v = refl
update_photo-rows id (some s) v = refl

pub update_photo-count :
    (id : ℤ) (k : Option String) (v : Photos) (n : ℕ) (l : Option ℤ)
    → (update_photo (null_or_text k ∷ int id ∷ []) v).0 ≡ done (some n) l
    → n ≡ changed k (v id)
update_photo-count id none v n l h = cc
update_photo-count id (some s) v n l h = cc

applied-refused :
    (o : Option (Option String × ℤ)) (v : Photos) (cause : String)
    → (applied o v).0 ≡ refused cause
    → (applied o v).1 ≡ v
applied-refused none v cause h = refl
applied-refused (some (k, id)) v cause h = cc

pub exec-refused :
    (q : String) (args : List Value) (v : Photos) (cause : String)
    → (photo_memory.exec q args v).0 ≡ refused cause
    → (photo_memory.exec q args v).1 ≡ v
exec-refused q args v cause h = elim (Bool-cases (same q student_entity.update_photo)) [
  | inl update ↦ rw update (applied-refused (photo_args args) v cause (rw update at h))
  | inr other ↦ rw other
]

unfoldable pub photo_memory-IsPhotoTable : IsPhotoTable photo_memory student_entity
photo_memory-IsPhotoTable = record {
  photos = λ v. v;
  photo_update = λ id k v n l h j. ap (λ (f : Photos). f j) (update_photo-rows id k v);
  photo_count = λ id k v n l h. update_photo-count id k v n l h;
  photo_refused = λ q args v cause h j. ap (λ (f : Photos). f j) (exec-refused q args v cause h);
}
