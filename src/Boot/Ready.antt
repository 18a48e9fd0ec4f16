-- ===== src/Boot/Ready.antt =====
-- Whoever serves has everything that the handlers call.
use student_system_go.Common.{◌≡◌, Option, some}
use student_system_go.Go.{ok, ◌>>=◌, ◌>>◌}
use student_system_go.Photo.Storage.{load_rsa_key}
use student_system_go.Photo.Storage.Ready.{Serves}
use student_system_go.Boot.{Drivers, Process, photo_config}

abbrev IsAssigned : {A : Type 0} → Option A → Type 0
IsAssigned {A} o = (a : A) × (o ≡ some a)

module _ (d : Drivers) where
  abbrev HasPools : Process d → Type 0
  HasPools p = IsAssigned p.write_pool × IsAssigned p.read_pool

  abbrev HasWrite : Process d → Type 0
  HasWrite p = IsAssigned p.write_pool

  abbrev HasClient : Process d → Type 0
  HasClient p = HasPools p × IsAssigned p.client

  abbrev HasPublisher : Process d → Type 0
  HasPublisher p = HasClient p × IsAssigned p.publisher

  -- The five that the handlers use: the two pools, the client of Redis, the publisher, and the storage of
  -- photos with the configuration of the environment and the key of its file.
  abbrev pub IsReady : Process d → Type 0
  IsReady p =
      HasPublisher p
      × ((rsa : d.cloud.RsaKey) × ((load_rsa_key d.cloud (photo_config d).cf_private_key_path
              ≡ ok rsa)
            × Serves d.cloud (photo_config d) rsa p.photos))
