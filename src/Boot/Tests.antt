-- ===== src/Boot/Tests.antt =====
-- Starts with drivers that connect to everything, or not to the replica. The world is the list of what was
-- asked of it.
use student_system_go.Common.{
  ◌≡◌, refl, String, true, false, none, some, List, [], ◌∷◌, ◌++◌, if◌then◌else◌,
}
use student_system_go.Common.Text.{same, ◌<>◌}
use student_system_go.Go.{ok, err}
use student_system_go.Photo.Storage.{Cloud, load_rsa_key, init}
use student_system_go.Boot.{
  Drivers, no_change, Process, init_db, run_migrations, init_redis, connect, declare_topology,
  init_publisher, photo_config, start_up,
}

abbrev cloud : Cloud
cloud = record {
  S = Unit;
  RsaKey = String;
  read_file = λ path. ok "pem";
  pem_decode = λ text. some ("RSA PRIVATE KEY", text);
  parse_pkcs1 = λ bytes. ok bytes;
  parse_pkcs8 = λ bytes. ok none;
  load_config = λ region. ok tt;
  presign_put = λ bucket key expiry s. ok key;
  sign = λ key_pair rsa url ttl s. ok url;
  delete_object = λ bucket key s. (ok tt, s);
}

abbrev settings : String → String
settings key = if same key "DB_NAME" then "" else if same key "REDIS_URL" then "" else key

-- `down` is a connection string that does not answer.
abbrev drivers : String → Drivers
drivers down = record {
  World = List String;
  Db = String;
  Redis = String;
  Options = String;
  Amqp = String;
  Channel = String;
  Source = Unit;
  Driver = Unit;
  Migrator = Unit;
  cloud = cloud;
  env = settings;
  open_db = λ dsn w. (ok dsn, w);
  ping_db = λ db w. if same db down then (err "refused", w) else (ok tt, w);
  source = ok tt;
  with_instance = λ db w. (ok tt, w);
  migrator = λ src drv w. (ok tt, w);
  up = λ m w. (no_change, w ++ "up" ∷ []);
  parse_url = λ url. ok url;
  new_client = λ opts. opts;
  ping_redis = λ c w. (ok tt, w);
  dial = λ url w. (ok url, w);
  open_channel = λ conn w. (ok conn, w);
  queue_declare = λ ch queue args w. (ok tt, w ++ queue ∷ []);
  confirm = λ ch w. (ok tt, w);
}

abbrev nothing_set : (down : String) → Process (drivers down)
nothing_set down = record {
  world = [];
  write_pool = none;
  read_pool = none;
  client = none;
  publisher = none;
  photos = record {
    cfg = record {
      bucket = "";
      region = "";
      cf_domain = "";
      cf_key_pair_id = "";
      cf_private_key_path = "";
    };
    has_client = false;
    has_presigner = false;
    signer = none;
  };
}

abbrev dsn : String → String
dsn host =
    "DB_USER:DB_PASSWORD@tcp(" <> host
    <> ":DB_PORT)/schooldb?allowCleartextPasswords=true&tls=skip-verify&parseTime=true"

-- The failed queue is declared before the one that names it; the client of Redis has its default URL. If
-- the replica does not answer, the pool of the primary stays set.
start_tests :
    ((start_up (drivers "") (nothing_set "")).0 ≡ ok tt)
    × ((start_up (drivers "") (nothing_set "")).1.world
        ≡ "up" ∷ "email.password_reset.failed" ∷ "email.password_reset" ∷ [])
    × ((start_up (drivers "") (nothing_set "")).1.client ≡ some "redis://localhost:6379")
    × ((start_up (drivers (dsn "DB_REPLICA_HOST")) (nothing_set (dsn "DB_REPLICA_HOST"))).0
        ≡ err "failed to initialise database: replica open: ping: refused")
    × ((start_up
          (drivers (dsn "DB_REPLICA_HOST"))
          (nothing_set (dsn "DB_REPLICA_HOST"))).1.write_pool
        ≡ some (dsn "DB_PRIMARY_HOST"))
unfolding start_up init_db run_migrations init_redis connect declare_topology init_publisher init
    load_rsa_key
start_tests = (refl, refl, refl, refl, refl)

-- What the start leaves if everything answers.
abbrev started : Process (drivers "")
started = record {
  world = "up" ∷ "email.password_reset.failed" ∷ "email.password_reset" ∷ [];
  write_pool = some (dsn "DB_PRIMARY_HOST");
  read_pool = some (dsn "DB_REPLICA_HOST");
  client = some "redis://localhost:6379";
  publisher = some "RABBITMQ_URL";
  photos = record {
    cfg = photo_config (drivers "");
    has_client = true;
    has_presigner = true;
    signer = some ("CF_KEY_PAIR_ID", "pem");
  };
}
