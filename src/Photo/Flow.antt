-- ===== src/Photo/Flow.antt =====
-- The photo handlers together: a key that was issued is accepted.
use student_system_go.Common.{ℕ, ◌≡◌, ◌∙◌, sym, ap, String, true, some}
use student_system_go.Common.Int.{ℤ}
use student_system_go.Common.Text.{has_prefix, atoi}
use student_system_go.Sql.{Sql}
use student_system_go.Entity.{Entity}
use student_system_go.Http.{Reply, sent, at_least_one, authorize_user, with_role}
use student_system_go.Http.Sent.{with_role-sent, parsed-sent, require-sent, answered-sent}
use student_system_go.Photo.{
  Bucket, PhotoWorld, PhotoRequest, PhotoRoutes, expected_prefix, build_key, text_body, save_key,
  presign_photo, confirm_photo,
}
use student_system_go.Photo.Ext.{normalize_ext, is_allowed_ext}
use student_system_go.Photo.Keys.{build_key-accepted}

abbrev issued_key : Reply (String × String) → String
issued_key (sent status (url, key)) = key
issued_key x = ""

module _ (routes : PhotoRoutes) where
  -- What has been issued.
  abbrev pub IsIssued : PhotoRequest → String → Type 0
  IsIssued r key =
      (role : String) × (id : ℤ) × (ext : String) × (r.role ≡ some role)
      × (authorize_user role routes.write_roles ≡ true)
      × (at_least_one (atoi r.id) ≡ some id)
      × (is_allowed_ext ext ≡ true)
      × (key ≡ build_key routes.name id ext)

module _ {db : Sql} {bucket : Bucket} {R : Type 0} (e : Entity R) (routes : PhotoRoutes) where
  presign_photo-IsIssued :
      (r : PhotoRequest) (w v : PhotoWorld db bucket) (status : ℕ) (url key : String)
      → presign_photo db bucket e routes r w ≡ (sent status (url, key), v)
      → IsIssued routes r key
  unfolding presign_photo
  presign_photo-IsIssued r w v status url key q =
      let (role, has, may, q1) = with_role-sent r.role routes.write_roles _ w q in
      let (id, at, q2) = parsed-sent (at_least_one (atoi r.id)) routes.id_message _ w q1 in
      let (ext, body, q3) = parsed-sent (text_body "ext" r.body) "invalid request body" _ w q2 in
      let (allowed, q4) =
        require-sent (is_allowed_ext (normalize_ext ext))
          "unsupported extension; allowed: .jpg .jpeg .png .webp" _ w q3 in
      let (u, signed, e) =
        answered-sent
          (bucket.presign_upload (build_key routes.name id (normalize_ext ext)) w.objects)
          "failed to presign upload" _ w q4 in
      (role, id, normalize_ext ext, has, may, at, allowed, sym (ap (λ x. issued_key x.0) e))

  -- The upload flow: when the request for an upload has been answered with a URL and a key, then the
  -- confirmation of that key, by the same role for the same id, passes every check, in any later state:
  -- what is left of it is the call that saves the key for that id, which may still fail.
  pub presign_photo-confirm_photo :
      (r s : PhotoRequest) (w v w' : PhotoWorld db bucket) (status : ℕ) (url key : String)
      → presign_photo db bucket e routes r w ≡ (sent status (url, key), v)
      → s.role ≡ r.role
      → s.id ≡ r.id
      → text_body "key" s.body ≡ some key
      → (id : ℤ) × (at_least_one (atoi r.id) ≡ some id)
        × (confirm_photo db bucket e routes s w' ≡ save_key db bucket e routes id key w')
  unfolding confirm_photo with_role
  presign_photo-confirm_photo r s w v w' status url key q same_role same_id body =
      let (role, id, ext, has, may, at, allowed, built) =
        presign_photo-IsIssued r w v status url key q in
      let accepted : has_prefix key (expected_prefix routes.name id) ≡ true =
        ap (λ k. has_prefix k (expected_prefix routes.name id)) built
        ∙ build_key-accepted routes.name id ext in
      (id, at, rw (same_role ∙ has, may, same_id, at, body, accepted))
