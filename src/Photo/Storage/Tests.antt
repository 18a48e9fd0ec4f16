-- ===== src/Photo/Storage/Tests.antt =====
-- The package over a cloud in memory.
use student_system_go.Common.{◌≡◌, refl, String, true, false, none, some, if◌then◌else◌}
use student_system_go.Common.Int.{negsuc}
use student_system_go.Common.Text.{same, ◌<>◌}
use student_system_go.Go.{ok, err}
use student_system_go.Photo.Storage.{
  Config, Cloud, Package, not_initialised, load_rsa_key, init, presign_cloud_front_get, delete,
  bucket_of,
}
use student_system_go.Photo.Storage.Ready.{IsUnready, InitEnds, init-InitEnds}

-- The keys are their texts; one file holds an RSA key in PKCS#8, and one a key of another kind.
abbrev one_key : Cloud
one_key = record {
  S = String;
  RsaKey = String;
  read_file = λ path.
      if same path "rsa.pem"
      then ok "rsa"
      else if same path "ec.pem"
      then ok "ec"
      else err "no such file";
  pem_decode = λ text. some ("PRIVATE KEY", text);
  parse_pkcs1 = λ bytes. ok bytes;
  parse_pkcs8 = λ bytes. if same bytes "rsa" then ok (some "rsa") else ok none;
  load_config = λ region. ok tt;
  presign_put = λ bucket key expiry s. ok ("https://" <> bucket <> "/" <> key);
  sign = λ key_pair rsa url ttl s. ok (url <> "?key=" <> key_pair);
  delete_object = λ bucket key s. (ok tt, if same s key then "" else s);
}

abbrev config : Config
config = record {
  bucket = "b";
  region = "ap-south-1";
  cf_domain = "d.net";
  cf_key_pair_id = "K";
  cf_private_key_path = "rsa.pem";
}

abbrev unready : Package one_key
unready = record {
  cfg = record {
    bucket = "";
    region = "";
    cf_domain = "";
    cf_key_pair_id = "";
    cf_private_key_path = "";
  };
  has_client = false;
  has_presigner = false;
  signer = none;
}

abbrev started : Package one_key
started = record {
  cfg = config;
  has_client = true;
  has_presigner = true;
  signer = some ("K", "rsa");
}

storage_tests :
    (init one_key config unready ≡ (ok tt, started))
    × (init one_key (record config { cf_private_key_path = "ec.pem" }) unready ≡ (
      err "photo: load CF private key from ec.pem: pkcs8 key is not RSA (CloudFront requires RSA)",
      unready,
    ))
    × (presign_cloud_front_get one_key started "k" (negsuc 0) "" ≡ ok "https://d.net/k?key=K")
    × (delete one_key started "k" "k" ≡ (ok tt, ""))
unfolding init load_rsa_key presign_cloud_front_get delete
storage_tests = (refl, refl, refl, refl)

init-InitEnds_example :
    InitEnds one_key config unready (init one_key config unready)
    × (IsUnready one_key unready
        → (key : String) (s : String)
        → ((bucket_of one_key unready).presign_upload key s ≡ err not_initialised)
          × ((bucket_of one_key unready).presign_get key s ≡ err not_initialised)
          × ((bucket_of one_key unready).delete key s ≡ (err not_initialised, s)))
init-InitEnds_example = init-InitEnds one_key config unready
