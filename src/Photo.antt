-- ===== src/Photo.antt =====
-- internal/storage/photo/photo.go (the keys) and internal/api/handlers/students_photo.go,
-- teachers_photo.go and execs_photo.go. S3 and CloudFront are a parameter.
pub mod Ext
pub mod Keys
pub mod Owner
pub mod Flow
pub mod Copies
pub mod Storage
mod Tests
use student_system_go.Common.{
  ℕ, String, Bool, true, false, Option, none, some, List, [], ◌∷◌, if◌then◌else◌,
}
use student_system_go.Common.Int.{ℤ}
use student_system_go.Common.Text.{same, ◌<>◌, has_prefix, atoi}
use student_system_go.Common.Decimal.{itoa}
use student_system_go.Go.{Result, ok, err, panic, ⊤}
use student_system_go.Reflect.{Field, string_slot}
use student_system_go.Reflect.Json.{Json}
use student_system_go.Reflect.Decode.{decode_struct}
use student_system_go.Sql.{Sql, Pool}
use student_system_go.Entity.{Entity}
use student_system_go.Repo.Photo.{get_photo_key, set_photo_key}
use student_system_go.Http.{
  Reply, failed, sent, closed, Handler, with_role, fails, sends, parsed, require, positive_id,
  answered,
}
use student_system_go.Photo.Ext.{normalize_ext, is_allowed_ext}

-- `PresignUpload`, `PresignCloudFrontGet` and `Delete`, over the objects of the bucket
pub record Bucket : Type 1 where
  pub S : Type 0
  pub presign_upload : String → S → Result String
  pub presign_get : String → S → Result String
  pub delete : String → S → Result ⊤ × S

pub record PhotoWorld (db : Sql) (bucket : Bucket) : Type 0 where
  pub pool : Pool db
  pub objects : bucket.S

pub record PhotoRequest : Type 0 where
  pub role : Option String
  pub id : String
  pub body : Option Json

-- What the three copies differ in.
pub record PhotoRoutes : Type 0 where
  pub name : String
  pub id_message : String
  pub mismatch_message : String
  pub no_photo_message : String
  pub write_roles : List String
  pub read_roles : List String
  pub delete_roles : List String

abbrev pub student_photos : PhotoRoutes
student_photos = record {
  name = "students";
  id_message = "invalid student id";
  mismatch_message = "key does not match this student";
  no_photo_message = "no photo for this student";
  write_roles = "admin" ∷ "manager" ∷ "exec" ∷ [];
  read_roles = "admin" ∷ "manager" ∷ "exec" ∷ "teacher" ∷ [];
  delete_roles = "admin" ∷ "manager" ∷ "exec" ∷ [];
}

abbrev pub teacher_photos : PhotoRoutes
teacher_photos = record {
  name = "teachers";
  id_message = "invalid teacher id";
  mismatch_message = "key does not match this teacher";
  no_photo_message = "no photo for this teacher";
  write_roles = "admin" ∷ "manager" ∷ "exec" ∷ [];
  read_roles = "admin" ∷ "manager" ∷ "exec" ∷ "teacher" ∷ [];
  delete_roles = "admin" ∷ "manager" ∷ "exec" ∷ [];
}

abbrev pub exec_photos : PhotoRoutes
exec_photos = record {
  name = "execs";
  id_message = "invalid exec id";
  mismatch_message = "key does not match this exec";
  no_photo_message = "no photo for this exec";
  write_roles = "admin" ∷ "manager" ∷ "exec" ∷ [];
  read_roles = "admin" ∷ "manager" ∷ "exec" ∷ [];
  delete_roles = "admin" ∷ [];
}

-- `fmt.Sprintf("photos/students/%d/profile", id)`
abbrev pub expected_prefix : String → ℤ → String
expected_prefix entity id = "photos/" <> entity <> "/" <> itoa id <> "/profile"

-- `BuildKey`
unfoldable pub build_key : String → ℤ → String → String
build_key entity id ext =
    "photos/" <> entity <> "/" <> itoa id <> "/profile" <> (if same ext "" then ".jpg" else ext)

-- A body with one text member.
abbrev text_field : String → List (Field String)
text_field name = record { json = name; db = ""; slot = string_slot (λ s. s) (λ s t. s) } ∷ []

abbrev pub text_body : String → Option Json → Option String
unfolding decode_struct
text_body name none = none
text_body name (some j) = decode_struct (text_field name) "" j

abbrev pub on_pool :
    {db : Sql} {bucket : Bucket} {B : Type 0}
    → Result B × Pool db
    → PhotoWorld db bucket
    → Result B × PhotoWorld db bucket
on_pool (r, p) w = (r, record w { pool = p })

module _ (db : Sql) (bucket : Bucket) {R : Type 0} (e : Entity R) (routes : PhotoRoutes) where
  -- `PresignStudentPhotoUploadHandler`
  unfoldable pub presign_photo : PhotoRequest → Handler (PhotoWorld db bucket) (String × String)
  unfolding with_role atoi decode_struct normalize_ext is_allowed_ext build_key
  presign_photo r = with_role r.role routes.write_roles (
      positive_id r.id routes.id_message λ id.
        parsed (text_body "ext" r.body) "invalid request body" λ ext.
          require (is_allowed_ext (normalize_ext ext))
            "unsupported extension; allowed: .jpg .jpeg .png .webp"
            λ w.
              let key = build_key routes.name id (normalize_ext ext) in
              answered (bucket.presign_upload key w.objects, w) "failed to presign upload"
                λ url. sends 200 (url, key))

  abbrev pub save_key : ℤ → String → Handler (PhotoWorld db bucket) ⊤
  unfolding set_photo_key
  save_key id key w =
      answered (on_pool (set_photo_key db e id key w.pool) w) "failed to save photo"
        λ done. sends 204 tt

  -- `ConfirmStudentPhotoHandler`
  unfoldable pub confirm_photo : PhotoRequest → Handler (PhotoWorld db bucket) ⊤
  unfolding with_role atoi decode_struct has_prefix save_key
  confirm_photo r = with_role r.role routes.write_roles (
      positive_id r.id routes.id_message λ id.
        parsed (text_body "key" r.body) "invalid request body" λ key.
          require (has_prefix key (expected_prefix routes.name id)) routes.mismatch_message
            (save_key id key))

  -- `GetStudentPhotoHandler`; the reply has the URL and the seconds that it is valid for
  unfoldable pub get_photo : PhotoRequest → Handler (PhotoWorld db bucket) (String × String)
  unfolding with_role atoi get_photo_key
  get_photo r = with_role r.role routes.read_roles (
      positive_id r.id routes.id_message λ id w.
        answered (on_pool (get_photo_key db e id w.pool) w) "failed to fetch photo" λ key w.
          if same key ""
          then (failed 404 routes.no_photo_message, w)
          else answered (bucket.presign_get key w.objects, w) "failed to generate photo url"
              (λ url. sends 200 (url, "300")))

  -- The object is deleted after the row is cleared, and a failure there is logged alone.
  abbrev pub clear_photo : ℤ → String → Handler (PhotoWorld db bucket) ⊤
  unfolding set_photo_key
  clear_photo id key w =
      answered (on_pool (set_photo_key db e id "" w.pool) w) "failed to delete photo"
        λ done w. (sent 204 tt, record w { objects = (bucket.delete key w.objects).1 })

  abbrev pub delete_at : ℤ → Handler (PhotoWorld db bucket) ⊤
  unfolding get_photo_key clear_photo
  delete_at id w =
      answered (on_pool (get_photo_key db e id w.pool) w) "failed to fetch photo"
        λ key w. if same key "" then (sent 204 tt, w) else clear_photo id key w

  -- `DeleteStudentPhotoHandler`
  unfoldable pub delete_photo : PhotoRequest → Handler (PhotoWorld db bucket) ⊤
  unfolding with_role atoi delete_at
  delete_photo r =
      with_role r.role routes.delete_roles (positive_id r.id routes.id_message delete_at)
