-- ===== src/Photo/Copies.antt =====
-- The copies of the photo handlers: internal/api/handlers/students_photo.go, teachers_photo.go and
-- execs_photo.go.
use student_system_go.Common.{◌≡◌, refl, String, some}
use student_system_go.Go.{⊤}
use student_system_go.Sql.{Sql}
use student_system_go.Entity.Students.{student_entity}
use student_system_go.Entity.Teachers.{teacher_entity}
use student_system_go.Entity.Execs.{exec_entity}
use student_system_go.Http.{failed, Handler, authorize_user, with_role}
use student_system_go.Photo.{
  Bucket, PhotoWorld, PhotoRequest, student_photos, teacher_photos, exec_photos, presign_photo,
  confirm_photo, get_photo, delete_photo,
}

module _ (db : Sql) (bucket : Bucket) where
  abbrev presign_student_photo_upload_handler :
      PhotoRequest → Handler (PhotoWorld db bucket) (String × String)
  presign_student_photo_upload_handler = presign_photo db bucket student_entity student_photos

  abbrev confirm_student_photo_handler : PhotoRequest → Handler (PhotoWorld db bucket) ⊤
  confirm_student_photo_handler = confirm_photo db bucket student_entity student_photos

  abbrev get_student_photo_handler : PhotoRequest → Handler (PhotoWorld db bucket) (String × String)
  get_student_photo_handler = get_photo db bucket student_entity student_photos

  abbrev delete_student_photo_handler : PhotoRequest → Handler (PhotoWorld db bucket) ⊤
  delete_student_photo_handler = delete_photo db bucket student_entity student_photos

  abbrev presign_teacher_photo_upload_handler :
      PhotoRequest → Handler (PhotoWorld db bucket) (String × String)
  presign_teacher_photo_upload_handler = presign_photo db bucket teacher_entity teacher_photos

  abbrev confirm_teacher_photo_handler : PhotoRequest → Handler (PhotoWorld db bucket) ⊤
  confirm_teacher_photo_handler = confirm_photo db bucket teacher_entity teacher_photos

  abbrev get_teacher_photo_handler : PhotoRequest → Handler (PhotoWorld db bucket) (String × String)
  get_teacher_photo_handler = get_photo db bucket teacher_entity teacher_photos

  abbrev delete_teacher_photo_handler : PhotoRequest → Handler (PhotoWorld db bucket) ⊤
  delete_teacher_photo_handler = delete_photo db bucket teacher_entity teacher_photos

  abbrev presign_exec_photo_upload_handler :
      PhotoRequest → Handler (PhotoWorld db bucket) (String × String)
  presign_exec_photo_upload_handler = presign_photo db bucket exec_entity exec_photos

  abbrev confirm_exec_photo_handler : PhotoRequest → Handler (PhotoWorld db bucket) ⊤
  confirm_exec_photo_handler = confirm_photo db bucket exec_entity exec_photos

  abbrev get_exec_photo_handler : PhotoRequest → Handler (PhotoWorld db bucket) (String × String)
  get_exec_photo_handler = get_photo db bucket exec_entity exec_photos

  abbrev delete_exec_photo_handler : PhotoRequest → Handler (PhotoWorld db bucket) ⊤
  delete_exec_photo_handler = delete_photo db bucket exec_entity exec_photos

  -- A role that no handler lists is refused by each of them.
  refused_tests :
      (r : PhotoRequest) (w : PhotoWorld db bucket)
      → (presign_student_photo_upload_handler (record r { role = some "student" }) w
          ≡ (failed 403 "user not authorised", w))
        × (confirm_student_photo_handler (record r { role = some "student" }) w
            ≡ (failed 403 "user not authorised", w))
        × (get_student_photo_handler (record r { role = some "student" }) w
            ≡ (failed 403 "user not authorised", w))
        × (delete_student_photo_handler (record r { role = some "student" }) w
            ≡ (failed 403 "user not authorised", w))
        × (presign_teacher_photo_upload_handler (record r { role = some "student" }) w
            ≡ (failed 403 "user not authorised", w))
        × (confirm_teacher_photo_handler (record r { role = some "student" }) w
            ≡ (failed 403 "user not authorised", w))
        × (get_teacher_photo_handler (record r { role = some "student" }) w
            ≡ (failed 403 "user not authorised", w))
        × (delete_teacher_photo_handler (record r { role = some "student" }) w
            ≡ (failed 403 "user not authorised", w))
        × (presign_exec_photo_upload_handler (record r { role = some "student" }) w
            ≡ (failed 403 "user not authorised", w))
        × (confirm_exec_photo_handler (record r { role = some "student" }) w
            ≡ (failed 403 "user not authorised", w))
        × (get_exec_photo_handler (record r { role = some "student" }) w
            ≡ (failed 403 "user not authorised", w))
        × (delete_exec_photo_handler (record r { role = some "student" }) w
            ≡ (failed 403 "user not authorised", w))
  unfolding with_role authorize_user presign_photo confirm_photo get_photo delete_photo
  refused_tests r w = (refl, refl, refl, refl, refl, refl, refl, refl, refl, refl, refl, refl)
