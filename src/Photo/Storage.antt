-- ===== src/Photo/Storage.antt =====
-- internal/storage/photo/photo.go: the package over S3 and CloudFront, which the handlers call. The SDK of
-- AWS, `crypto/x509`, `encoding/pem` and the file system are a parameter.
pub mod Ready
mod Tests
use student_system_go.Common.{String, Bool, true, false, ◌||◌, Option, none, some, if◌then◌else◌}
use student_system_go.Common.Int.{ℤ, pos, not_positive}
use student_system_go.Common.Text.{same, ◌<>◌}
use student_system_go.Go.{Result, ok, err, panic, ⊤, Call, pure, raise, ◌>>=◌, ◌>>◌}
use student_system_go.Photo.{Bucket}

-- `Config`
pub record Config : Type 0 where
  pub bucket : String
  pub region : String
  pub cf_domain : String
  pub cf_key_pair_id : String
  pub cf_private_key_path : String

-- What the package calls. A block of a PEM file is its type and its bytes; `parse_pkcs8` gives `none` for a
-- key that is not one of RSA; the durations are in nanoseconds.
pub record Cloud : Type 1 where
  pub S : Type 0
  pub RsaKey : Type 0
  pub read_file : String → Result String
  pub pem_decode : String → Option (String × String)
  pub parse_pkcs1 : String → Result RsaKey
  pub parse_pkcs8 : String → Result (Option RsaKey)
  pub load_config : String → Result ⊤
  pub presign_put : String → String → ℤ → S → Result String
  pub sign : String → RsaKey → String → ℤ → S → Result String
  pub delete_object : String → String → S → Result ⊤ × S

-- The variables of the package: the configuration, whether there are clients, and the signer with its
-- key pair.
pub record Package (cloud : Cloud) : Type 0 where
  pub cfg : Config
  pub has_client : Bool
  pub has_presigner : Bool
  pub signer : Option (String × cloud.RsaKey)

-- `fmt.Errorf("...%w", err)`
abbrev pub wrapped : {A : Type 0} → String → Result A → Result A
wrapped context (ok a) = ok a
wrapped context (err cause) = err (context <> cause)
wrapped context panic = panic

abbrev pub and_then : {A B : Type 0} → Result A → (A → Result B) → Result B
and_then (ok a) f = f a
and_then (err cause) f = err cause
and_then panic f = panic

abbrev pub not_initialised : String
not_initialised = "photo: package not initialised — call Init at startup"

abbrev pub upload_expiry : ℤ
upload_expiry = pos 900000000000

abbrev pub default_ttl : ℤ
default_ttl = pos 300000000000

module _ (cloud : Cloud) where
  abbrev rsa_or_other : Option cloud.RsaKey → Result cloud.RsaKey
  rsa_or_other none = err "pkcs8 key is not RSA (CloudFront requires RSA)"
  rsa_or_other (some key) = ok key

  abbrev pub key_of_block : Option (String × String) → Result cloud.RsaKey
  key_of_block none = err "not a PEM file (no -----BEGIN----- header)"
  key_of_block (some (kind, bytes)) =
      if same kind "RSA PRIVATE KEY"
      then cloud.parse_pkcs1 bytes
      else if same kind "PRIVATE KEY"
      then and_then (wrapped "parse pkcs8: " (cloud.parse_pkcs8 bytes)) rsa_or_other
      else err ("unsupported PEM block type \"" <> kind <> "\"")

  -- `loadRSAKey`
  unfoldable pub load_rsa_key : String → Result cloud.RsaKey
  load_rsa_key path =
      and_then (wrapped "read: " (cloud.read_file path))
        λ text. key_of_block (cloud.pem_decode text)

  abbrev pub with_key : Config → Package cloud → Result cloud.RsaKey → Result ⊤ × Package cloud
  with_key c p (err cause) =
      (err ("photo: load CF private key from " <> c.cf_private_key_path <> ": " <> cause), p)
  with_key c p panic = (panic, p)
  with_key c p (ok key) = elim (cloud.load_config c.region) [
    | err cause ↦ (err ("photo: load AWS config: " <> cause), p)
    | panic ↦ (panic, p)
    | ok done ↦ (
      ok tt,
      record {
        cfg = c;
        has_client = true;
        has_presigner = true;
        signer = some (c.cf_key_pair_id, key);
      },
    )
  ]

  -- `Init`
  unfoldable pub init : Config → Call (Package cloud) ⊤
  unfolding load_rsa_key
  init c p =
      if same c.bucket "" || same c.region ""
      then (err "photo: S3_BUCKET and S3_REGION must be set", p)
      else if same c.cf_domain "" || same c.cf_key_pair_id "" || same c.cf_private_key_path ""
      then (err "photo: CF_DOMAIN, CF_KEY_PAIR_ID, CF_PRIVATE_KEY_PATH must be set", p)
      else with_key c p (load_rsa_key c.cf_private_key_path)

  -- `PresignUpload`
  unfoldable pub presign_upload : Package cloud → String → cloud.S → Result String
  presign_upload p key s =
      if p.has_presigner
      then wrapped ("photo: presign upload for " <> key <> ": ")
          (cloud.presign_put p.cfg.bucket key upload_expiry s)
      else err not_initialised

  abbrev pub signed_url :
      Config → String → ℤ → Option (String × cloud.RsaKey) → cloud.S → Result String
  signed_url c key ttl none s = err not_initialised
  signed_url c key ttl (some (key_pair, rsa)) s =
      wrapped ("photo: sign CF URL for " <> key <> ": ") (
        cloud.sign key_pair rsa ("https://" <> c.cf_domain <> "/" <> key)
          (if not_positive ttl then default_ttl else ttl) s)

  -- `PresignCloudFrontGet`
  unfoldable pub presign_cloud_front_get : Package cloud → String → ℤ → cloud.S → Result String
  presign_cloud_front_get p key ttl s = signed_url p.cfg key ttl p.signer s

  abbrev pub deleted : String → Result ⊤ × cloud.S → Result ⊤ × cloud.S
  deleted key (r, s) = (wrapped ("photo: delete " <> key <> ": ") r, s)

  -- `Delete`
  unfoldable pub delete : Package cloud → String → cloud.S → Result ⊤ × cloud.S
  delete p key s =
      if p.has_client
      then deleted key (cloud.delete_object p.cfg.bucket key s)
      else (err not_initialised, s)

  -- What the handlers call: the lifetime of a URL that they ask for is five minutes.
  abbrev pub bucket_of : Package cloud → Bucket
  bucket_of p = record {
    S = cloud.S;
    presign_upload = presign_upload p;
    presign_get = λ key s. presign_cloud_front_get p key default_ttl s;
    delete = delete p;
  }
