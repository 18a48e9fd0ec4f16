-- ===== src/Photo/Storage/Ready.antt =====
-- The package before and after `Init`.
use student_system_go.Common.{◌≡◌, refl, String, Bool, true, false, ◌||◌, none, some, if◌then◌else◌}
use student_system_go.Common.Text.{same, ◌<>◌}
use student_system_go.Go.{Result, ok, err, panic, ⊤}
use student_system_go.Photo.Storage.{
  Config, Cloud, Package, wrapped, not_initialised, upload_expiry, default_ttl, load_rsa_key,
  with_key, init, presign_upload, presign_cloud_front_get, deleted, delete, bucket_of,
}

module _ (cloud : Cloud) where
  -- No operation is ready, as before the first `Init`.
  abbrev pub IsUnready : Package cloud → Type 0
  IsUnready p = (p.has_client ≡ false) × (p.has_presigner ≡ false) × (p.signer ≡ none)

  -- What the handlers call is the SDK under the configuration `c` with the key `rsa`.
  pub record Serves (c : Config) (rsa : cloud.RsaKey) (p : Package cloud) : Type 0 where
    pub uploads :
        (key : String) (s : cloud.S)
        → (bucket_of cloud p).presign_upload key s
          ≡ wrapped
              ("photo: presign upload for " <> key <> ": ")
              (cloud.presign_put c.bucket key upload_expiry s)
    pub gets :
        (key : String) (s : cloud.S)
        → (bucket_of cloud p).presign_get key s
          ≡ wrapped ("photo: sign CF URL for " <> key <> ": ") (
              cloud.sign c.cf_key_pair_id rsa
                ("https://" <> c.cf_domain <> "/" <> key)
                default_ttl
                s)
    pub deletes :
        (key : String) (s : cloud.S)
        → (bucket_of cloud p).delete key s ≡ deleted cloud key (cloud.delete_object c.bucket key s)

  -- All five fields are set.
  abbrev pub IsComplete : Config → Type 0
  IsComplete c =
      ((same c.bucket "" || same c.region "") ≡ false)
      × ((same c.cf_domain "" || same c.cf_key_pair_id "" || same c.cf_private_key_path "") ≡ false)

  abbrev pub InitEnds : Config → Package cloud → Result ⊤ × Package cloud → Type 0
  InitEnds c p (ok done, q) =
      IsComplete c
      × ((rsa : cloud.RsaKey) × ((load_rsa_key cloud c.cf_private_key_path ≡ ok rsa)
            × Serves c rsa q))
  InitEnds c p (err message, q) = q ≡ p
  InitEnds c p (panic, q) = q ≡ p

  ready-Serves :
      (c : Config) (rsa : cloud.RsaKey)
      → Serves c rsa (record {
        cfg = c;
        has_client = true;
        has_presigner = true;
        signer = some (c.cf_key_pair_id, rsa);
      })
  unfolding presign_upload presign_cloud_front_get delete
  ready-Serves c rsa = record {
    uploads = λ key s. refl;
    gets = λ key s. refl;
    deletes = λ key s. refl;
  }

  with_key-InitEnds :
      (c : Config) (p : Package cloud) (found : Result cloud.RsaKey)
      → IsComplete c
      → load_rsa_key cloud c.cf_private_key_path ≡ found
      → InitEnds c p (with_key cloud c p found)
  with_key-InitEnds c p (err cause) complete here = refl
  with_key-InitEnds c p panic complete here = refl
  with_key-InitEnds c p (ok rsa) complete here = go (cloud.load_config c.region)
    where
      go :
          (x : Result ⊤)
          → InitEnds c p (elim x [
            | err cause ↦ (err ("photo: load AWS config: " <> cause), p)
            | panic ↦ (panic, p)
            | ok done ↦ (
              ok tt,
              record {
                cfg = c;
                has_client = true;
                has_presigner = true;
                signer = some (c.cf_key_pair_id, rsa);
              },
            )
          ])
      go (ok done) = (complete, (rsa, (here, ready-Serves c rsa)))
      go (err cause) = refl
      go panic = refl

  -- Init is all or nothing. If it succeeds, the five fields are set, the key file holds an RSA key, and
  -- from then on an upload, a read and a deletion are the calls of the SDK with the bucket, the domain,
  -- the key pair and the key of this configuration; if it fails, the package is as it was. A package
  -- that was never initialised refuses each of the three, and deletes nothing.
  pub init-InitEnds :
      (c : Config) (p : Package cloud)
      → InitEnds c p (init cloud c p)
        × (IsUnready p
            → (key : String) (s : cloud.S)
            → ((bucket_of cloud p).presign_upload key s ≡ err not_initialised)
              × ((bucket_of cloud p).presign_get key s ≡ err not_initialised)
              × ((bucket_of cloud p).delete key s ≡ (err not_initialised, s)))
  unfolding init presign_upload presign_cloud_front_get delete
  init-InitEnds c p = (
    go (same c.bucket "" || same c.region "")
        (same c.cf_domain "" || same c.cf_key_pair_id "" || same c.cf_private_key_path "") refl
        refl,
    λ (client, presigner, signer) key s. (rw presigner, rw signer, rw client),
  )
    where
      go :
          (a b : Bool)
          → (same c.bucket "" || same c.region "") ≡ a
          → (same c.cf_domain "" || same c.cf_key_pair_id "" || same c.cf_private_key_path "") ≡ b
          → InitEnds c p (
              if a
              then (err "photo: S3_BUCKET and S3_REGION must be set", p)
              else if b
              then (err "photo: CF_DOMAIN, CF_KEY_PAIR_ID, CF_PRIVATE_KEY_PATH must be set", p)
              else with_key cloud c p (load_rsa_key cloud c.cf_private_key_path))
      go true b h k = refl
      go false true h k = refl
      go false false h k =
          with_key-InitEnds c p (load_rsa_key cloud c.cf_private_key_path) (h, k) refl
