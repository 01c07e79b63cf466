-- ===== src/Server/Setup.antt =====
-- pkg/server/setup.go, `LoadConfig` behind the creation of the data directory, and the storage limit
-- that cmd/server/main.go makes of it. `parse_int` is `strconv.ParseInt(_, 10, 64)`, whose result is
-- its 64 bits; an environment variable that is not set is an empty text.
pub mod Limit
use tinyobs.Base.{ℕ, ◌*◌, ◌%◌, ◌^◌, ◌==◌, Bytes, codes, Option, none, some, length, if◌then◌else◌}

-- pkg/config/config.go
abbrev pub default_port : Bytes
default_port = codes "8080"

abbrev pub default_max_storage_gb : ℕ
default_max_storage_gb = 1

abbrev pub default_max_memory_mb : ℕ
default_max_memory_mb = 48

pub record Config : Type 0 where
  pub max_storage_gb : ℕ
  pub max_memory_mb : ℕ
  pub data_dir : Bytes
  pub port : Bytes

module _ (env : Bytes → Bytes) (parse_int : Bytes → Option ℕ) where
  unfoldable pub get_env_int64 : Bytes → ℕ → ℕ
  get_env_int64 key default_value =
      if length (env key) == 0
      then default_value
      else (elim (parse_int (env key)) [ some parsed ↦ parsed | none ↦ default_value ])

  unfoldable pub get_port : Bytes
  get_port = if length (env (codes "PORT")) == 0 then default_port else env (codes "PORT")

  unfoldable pub load_config : Config
  load_config = record {
    max_storage_gb = get_env_int64 (codes "TINYOBS_MAX_STORAGE_GB") default_max_storage_gb;
    max_memory_mb = get_env_int64 (codes "TINYOBS_MAX_MEMORY_MB") default_max_memory_mb;
    data_dir = codes "./data/tinyobs";
    port = get_port;
  }

-- `cfg.MaxStorageGB * 1024 * 1024 * 1024`, as the 64 bits of an int64.
unfoldable pub max_storage_bytes : Config → ℕ
max_storage_bytes cfg = cfg.max_storage_gb * 1024 * 1024 * 1024 % 2 ^ 64
