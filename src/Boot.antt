-- ===== src/Boot.antt =====
-- What the API does before it serves: `main` of cmd/api/server.go with InitDB of
-- internal/repository/sqlconnect/sqlconfig.go, Run of internal/dbmigrate/migrate.go, InitRedis of
-- internal/redis/client.go, and Connect, DeclareTopology and InitPublisher of internal/queue/rabbitmq. The
-- drivers are a parameter.
pub mod Triples
pub mod Ready
mod Tests
use student_system_go.Common.{
  String, Bool, true, false, Option, none, some, List, [], ◌∷◌, if◌then◌else◌,
}
use student_system_go.Common.Text.{same, ◌<>◌}
use student_system_go.Go.{Result, ok, err, panic, ⊤, Call, pure, raise, gets, ◌>>=◌, ◌>>◌}
use student_system_go.Queue.{password_reset_queue}
use student_system_go.Photo.Storage.{Config, Cloud, Package, init}

-- What `Up` of golang-migrate returns.
pub data Migrated : Type 0 where
  no_change applied : Migrated
  failed : String → Migrated

-- The drivers, over a world that they change. The limits of a pool are set when it is opened.
pub record Drivers : Type 1 where
  pub World : Type 0
  pub Db : Type 0
  pub Redis : Type 0
  pub Options : Type 0
  pub Amqp : Type 0
  pub Channel : Type 0
  pub Source : Type 0
  pub Driver : Type 0
  pub Migrator : Type 0
  pub cloud : Cloud
  pub env : String → String
  pub open_db : String → World → Result Db × World
  pub ping_db : Db → World → Result ⊤ × World
  pub source : Result Source
  pub with_instance : Db → World → Result Driver × World
  pub migrator : Source → Driver → World → Result Migrator × World
  pub up : Migrator → World → Migrated × World
  pub parse_url : String → Result Options
  pub new_client : Options → Redis
  pub ping_redis : Redis → World → Result ⊤ × World
  pub dial : String → World → Result Amqp × World
  pub open_channel : Amqp → World → Result Channel × World
  pub queue_declare : Channel → String → List (String × String) → World → Result ⊤ × World
  pub confirm : Channel → World → Result ⊤ × World

-- The variables of the packages, nil until they are set.
pub record Process (d : Drivers) : Type 0 where
  pub world : d.World
  pub write_pool : Option d.Db
  pub read_pool : Option d.Db
  pub client : Option d.Redis
  pub publisher : Option d.Channel
  pub photos : Package d.cloud

abbrev pub failed_queue : String
failed_queue = "email.password_reset.failed"

module _ {S A : Type 0} where
  -- `fmt.Errorf("...%w", err)`
  abbrev pub in_context : String → Result A × S → Result A × S
  in_context context (ok a, s) = (ok a, s)
  in_context context (err cause, s) = (err (context <> cause), s)
  in_context context (panic, s) = (panic, s)

  abbrev pub within : String → Call S A → Call S A
  within context m s = in_context context (m s)

  abbrev pub returned : Result A → Call S A
  returned r s = (r, s)

module _ (d : Drivers) where
  -- A call of a driver
  abbrev pub driven : {A : Type 0} → (d.World → Result A × d.World) → Call (Process d) A
  driven f p = let (r, w) = f p.world in (r, record p { world = w })

  -- `getEnv`
  abbrev pub get_env : String → String → String
  get_env key fallback = if same (d.env key) "" then fallback else d.env key

  -- `buildDSN`
  abbrev pub build_dsn : String → String → String → String → String → String
  build_dsn user pass host port name =
      user <> ":" <> pass <> "@tcp(" <> host <> ":" <> port <> ")/" <> name
      <> "?allowCleartextPasswords=true&tls=skip-verify&parseTime=true"

  -- `openAndTune`
  abbrev pub open_and_tune : String → Call (Process d) d.Db
  open_and_tune dsn = do
    db ← driven (d.open_db dsn)
    within "ping: " (driven (d.ping_db db))
    pure db

  abbrev pub set_write : d.Db → Call (Process d) ⊤
  set_write db p = (ok tt, record p { write_pool = some db })

  abbrev pub set_read : d.Db → Call (Process d) ⊤
  set_read db p = (ok tt, record p { read_pool = some db })

  abbrev pub dsn_for : String → String
  dsn_for host =
      build_dsn (get_env "DB_USER" "root") (get_env "DB_PASSWORD" "") host
        (get_env "DB_PORT" "3306") (get_env "DB_NAME" "schooldb")

  -- `InitDB`
  unfoldable pub init_db : Call (Process d) ⊤
  init_db = do
    primary ←
        within "primary open: "
          (open_and_tune (dsn_for (get_env "DB_PRIMARY_HOST" "mysql_primary")))
    set_write primary
    replica ←
        within "replica open: "
          (open_and_tune (dsn_for (get_env "DB_REPLICA_HOST" "mysql_replica")))
    set_read replica

  abbrev pub after_up : Migrated × Process d → Result ⊤ × Process d
  after_up (no_change, p) = (ok tt, p)
  after_up (applied, p) = (ok tt, p)
  after_up (failed cause, p) = (err ("dbmigrate: up: " <> cause), p)

  abbrev pub run_up : d.Migrator → Call (Process d) ⊤
  run_up m p = let (x, w) = d.up m p.world in after_up (x, record p { world = w })

  abbrev pub migration_dsn : String
  migration_dsn =
      get_env "DB_USER" "root"
      <> ":"
      <> get_env "DB_PASSWORD" ""
      <> "@tcp("
      <> get_env "DB_PRIMARY_HOST" "mysql_primary"
      <> ":"
      <> get_env "DB_PORT" "3306"
      <> ")/"
      <> get_env "DB_NAME" "schooldb"
      <> "?multiStatements=true&parseTime=true&tls=skip-verify"

  -- `Run`, on a connection of its own
  unfoldable pub run_migrations : Call (Process d) ⊤
  run_migrations = do
    db ← within "dbmigrate: open: " (driven (d.open_db migration_dsn))
    within "dbmigrate: ping: " (driven (d.ping_db db))
    src ← within "dbmigrate: source: " (returned d.source)
    drv ← within "dbmigrate: driver: " (driven (d.with_instance db))
    m ← within "dbmigrate: migrator: " (driven (d.migrator src drv))
    run_up m

  abbrev pub set_client : d.Redis → Call (Process d) ⊤
  set_client c p = (ok tt, record p { client = some c })

  -- `InitRedis`; the client is set before it is tried.
  unfoldable pub init_redis : Call (Process d) ⊤
  init_redis = do
    opts ←
        within "invalid REDIS_URL: "
          (returned (d.parse_url (get_env "REDIS_URL" "redis://localhost:6379")))
    set_client (d.new_client opts)
    within "redis ping failed: " (driven (d.ping_redis (d.new_client opts)))

  -- `Connect`
  unfoldable pub connect : Call (Process d) d.Amqp
  connect =
      if same (d.env "RABBITMQ_URL") ""
      then raise "rabbitmq: RABBITMQ_URL not set"
      else within "rabbitmq: dial: " (driven (d.dial (d.env "RABBITMQ_URL")))

  abbrev pub dead_letters : List (String × String)
  dead_letters = ("x-dead-letter-exchange", "") ∷ ("x-dead-letter-routing-key", failed_queue) ∷ []

  -- `DeclareTopology`
  unfoldable pub declare_topology : d.Amqp → Call (Process d) ⊤
  declare_topology conn = do
    ch ← within "rabbitmq: open channel: " (driven (d.open_channel conn))
    within "rabbitmq: declare failed queue: " (driven (d.queue_declare ch failed_queue []))
    within "rabbitmq: declare main queue: "
        (driven (d.queue_declare ch password_reset_queue dead_letters))

  abbrev pub set_publisher : d.Channel → Call (Process d) ⊤
  set_publisher ch p = (ok tt, record p { publisher = some ch })

  -- `InitPublisher` with `NewPublisher`
  unfoldable pub init_publisher : d.Amqp → Call (Process d) ⊤
  init_publisher conn = do
    ch ← within "rabbitmq: open publish channel: " (driven (d.open_channel conn))
    within "rabbitmq: enable confirms: " (driven (d.confirm ch))
    set_publisher ch

  abbrev pub with_photos : Result ⊤ × Package d.cloud → Process d → Result ⊤ × Process d
  with_photos (r, photos) p = (r, record p { photos = photos })

  abbrev pub photo_config : Config
  photo_config = record {
    bucket = get_env "S3_BUCKET" "";
    region = get_env "S3_REGION" "ap-south-1";
    cf_domain = get_env "CF_DOMAIN" "";
    cf_key_pair_id = get_env "CF_KEY_PAIR_ID" "";
    cf_private_key_path = get_env "CF_PRIVATE_KEY_PATH" "/etc/secrets/cloudfront_private_key.pem";
  }

  abbrev pub init_photos : Call (Process d) ⊤
  unfolding init
  init_photos p = with_photos (init d.cloud photo_config p.photos) p

  -- `main`, up to the chain that it builds; an error is the message of `log.Fatalf`.
  unfoldable pub start_up : Call (Process d) ⊤
  unfolding init_db run_migrations init_redis connect declare_topology init_publisher init_photos
  start_up = do
    within "failed to initialise database: " init_db
    within "failed to run migrations: " run_migrations
    within "failed to initialise redis: " init_redis
    conn ← within "failed to connect to rabbitmq: " connect
    within "failed to declare rabbitmq topology: " (declare_topology conn)
    within "failed to init rabbitmq publisher: " (init_publisher conn)
    within "failed to initialise photo storage: " init_photos
