-- ===== src/Photo/Tests.antt =====
-- The theorems on the photos at concrete requests.
use student_system_go.Common.{◌≡◌, refl, String, true, none, some, if◌then◌else◌}
use student_system_go.Common.Int.{ℤ, pos, ◌==ℤ◌}
use student_system_go.Common.Text.{has_prefix, scan_digits, atoi, trim_suffix}
use student_system_go.Common.Decimal.{digit, decimal_from, decimal, itoa}
use student_system_go.Go.{ok}
use student_system_go.Reflect.Json.{Json, end, member}
use student_system_go.Reflect.Decode.{
  equal_fold, field_where, field_for, decode_slot, decode_members, decode_struct,
}
use student_system_go.Sql.{connect_db, connect_read_db}
use student_system_go.Entity.Students.{student_entity}
use student_system_go.Repo.Photo.{get_photo_key, set_photo_key}
use student_system_go.Repo.Photo.Rows.{Photos}
use student_system_go.Repo.Photo.Memory.{photo_memory}
use student_system_go.Http.{sent, at_least_one, authorize_user, with_role}
use student_system_go.Photo.{
  Bucket, PhotoWorld, PhotoRequest, student_photos, build_key, text_body, save_key, presign_photo,
  confirm_photo, clear_photo, delete_at, delete_photo,
}
use student_system_go.Photo.Ext.{
  trim_left, trim_right, ext, to_lower, normalize_ext, is_allowed_ext,
}
use student_system_go.Handlers.Blank.{Table, students, entity_of}
use student_system_go.Photo.Owner.{photos_of, confirm_photo-same_row}
use student_system_go.Photo.Flow.{presign_photo-confirm_photo}

abbrev key : String
key = "photos/students/42/profile.jpg"

-- A bucket that signs with a prefix and deletes without a trace.
abbrev bucket : Bucket
bucket = record {
  S = Unit;
  presign_upload = λ k s. ok "https://s3/signed";
  presign_get = λ k s. ok "https://cdn/signed";
  delete = λ k s. (ok tt, s);
}

abbrev photos : Photos
photos j = if j ==ℤ pos 42 then some (some key) else none

abbrev world : PhotoWorld photo_memory bucket
world = record { pool = record { ready = true; read_ready = true; server = photos }; objects = tt }

abbrev asks : PhotoRequest
asks = record {
  role = some "exec";
  id = "42";
  body = some (Json.obj (member "ext" (Json.str "JPG") end));
}

abbrev confirms : PhotoRequest
confirms = record {
  role = some "exec";
  id = "42";
  body = some (Json.obj (member "key" (Json.str key) end));
}

issued :
    presign_photo photo_memory bucket student_entity student_photos asks world
    ≡ (sent 200 ("https://s3/signed", key), world)
unfolding presign_photo with_role authorize_user atoi scan_digits decode_struct decode_members
    decode_slot field_for field_where equal_fold trim_suffix normalize_ext trim_left trim_right ext
    to_lower has_prefix is_allowed_ext build_key itoa decimal decimal_from digit
issued = refl

body : text_body "key" confirms.body ≡ some key
unfolding text_body decode_struct decode_members decode_slot field_for field_where equal_fold
    trim_suffix
body = refl

presign_photo-confirm_photo_example :
    (id : ℤ) × (at_least_one (atoi asks.id) ≡ some id)
    × (confirm_photo photo_memory bucket student_entity student_photos confirms world
        ≡ save_key photo_memory bucket student_entity student_photos id key world)
presign_photo-confirm_photo_example =
    presign_photo-confirm_photo student_entity student_photos asks confirms world world world 200
      "https://s3/signed" key issued refl refl body

-- The row has no photo yet.
abbrev vacant : PhotoWorld photo_memory bucket
vacant = record {
  pool = record {
    ready = true;
    read_ready = true;
    server = λ j. if j ==ℤ pos 42 then some none else none;
  };
  objects = tt;
}

abbrev confirmed : PhotoWorld photo_memory bucket
confirmed = (confirm_photo photo_memory bucket student_entity student_photos confirms vacant).1

confirm_runs :
    confirm_photo photo_memory bucket (entity_of students) (photos_of students) confirms vacant
    ≡ (sent 204 tt, confirmed)
unfolding confirm_photo with_role authorize_user atoi scan_digits decode_struct decode_members
    decode_slot field_for field_where equal_fold trim_suffix has_prefix itoa decimal decimal_from
    digit set_photo_key connect_db save_key
confirm_runs = refl

confirm_photo-same_row_example :
    (◌≡◌ {A = Table} students students)
    × (at_least_one (atoi confirms.id) ≡ at_least_one (atoi confirms.id))
confirm_photo-same_row_example =
    confirm_photo-same_row students students key confirms confirms vacant confirmed vacant confirmed
      204 204 body body confirm_runs confirm_runs

abbrev deleted : PhotoWorld photo_memory bucket
deleted = (delete_photo photo_memory bucket student_entity student_photos asks world).1

deletes :
    delete_photo photo_memory bucket student_entity student_photos asks world
    ≡ (sent 204 tt, deleted)
unfolding delete_photo delete_at clear_photo with_role authorize_user atoi scan_digits get_photo_key
    set_photo_key connect_db connect_read_db
deletes = refl
