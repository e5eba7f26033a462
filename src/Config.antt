-- ===== src/Config.antt =====
-- internal/config/config.go. Reading the file is the system's and decoding it is yaml.v3's: `file` is
-- what os.ReadFile gives, and `decode` fills in the fields that the file sets, or fails. A duration is
-- an int64 number of nanoseconds.
pub mod Overrides
use chatroom_server.Base.{
  ℕ, suc, ◌+◌, ◌-◌, ◌*◌, ◌%◌, ◌^◌, String, Bool, true, false, ◌||◌, Option, none, some, ltb,
  if◌then◌else◌,
}
use chatroom_server.Base.Int.{ℤ, pos, negsuc}
use chatroom_server.Text.Atoi.{atoi}
use text.Mathlib.Text.{◌==◌}

pub record Config : Type 0 where
  pub http_addr : String
  pub mysql_dsn : String
  pub redis_addr : String
  pub redis_pass : String
  pub jwt_secret : String
  pub jwt_ttl : ℤ
  pub minio_endpoint : String
  pub minio_access_key : String
  pub minio_secret_key : String
  pub minio_bucket : String
  pub minio_use_ssl : Bool
  pub livekit_api_key : String
  pub livekit_api_secret : String
  pub livekit_public_url : String

abbrev pub second : ℕ
second = 1_000_000_000

-- The bits of an int64, and the integer that they stand for.
abbrev pub to_word : ℤ → ℕ
to_word (pos n) = n % 2 ^ 64
to_word (negsuc n) = 2 ^ 64 - 1 - n % 2 ^ 64

abbrev pub of_word : ℕ → ℤ
of_word w = if ltb w (2 ^ 63) then pos w else negsuc (2 ^ 64 - 1 - w)

-- `time.Duration(secs) * time.Second`, which wraps round.
abbrev pub seconds : ℤ → ℤ
seconds secs = of_word ((to_word secs * second) % 2 ^ 64)

-- The fields' values at the head of `Load`.
abbrev pub defaults : Config
defaults = record {
  http_addr = ":8080";
  mysql_dsn = "root:root@tcp(127.0.0.1:3306)/chatroom?parseTime=true&charset=utf8mb4";
  redis_addr = "127.0.0.1:6379";
  redis_pass = "";
  jwt_secret = "dev-secret-change-me";
  jwt_ttl = pos (24 * 3600 * second);
  minio_endpoint = "127.0.0.1:9000";
  minio_access_key = "minioadmin";
  minio_secret_key = "minioadmin";
  minio_bucket = "chatroom-media";
  minio_use_ssl = false;
  livekit_api_key = "devkey";
  livekit_api_secret = "devsecretkeydevsecretkeydevsecretkeydevsecretkey";
  livekit_public_url = "ws://localhost:7880";
}

-- `if v := os.Getenv(…); v != "" { field = v }`
abbrev pub override : String → String → String
override v field = if v == "" then field else v

abbrev pub ttl_or : Option ℤ → ℤ → ℤ
ttl_or none field = field
ttl_or (some secs) field = seconds secs

-- `applyEnvOverrides`
unfoldable pub apply_env_overrides : (String → String) → Config → Config
unfolding atoi
apply_env_overrides env cfg = record {
  http_addr = override (env "CHATROOM_HTTP_ADDR") cfg.http_addr;
  mysql_dsn = override (env "CHATROOM_MYSQL_DSN") cfg.mysql_dsn;
  redis_addr = override (env "CHATROOM_REDIS_ADDR") cfg.redis_addr;
  redis_pass = override (env "CHATROOM_REDIS_PASS") cfg.redis_pass;
  jwt_secret = override (env "CHATROOM_JWT_SECRET") cfg.jwt_secret;
  jwt_ttl =
      if env "CHATROOM_JWT_TTL_SECONDS" == ""
      then cfg.jwt_ttl
      else ttl_or (atoi (env "CHATROOM_JWT_TTL_SECONDS")) cfg.jwt_ttl;
  minio_endpoint = override (env "CHATROOM_MINIO_ENDPOINT") cfg.minio_endpoint;
  minio_access_key = override (env "CHATROOM_MINIO_ACCESS_KEY") cfg.minio_access_key;
  minio_secret_key = override (env "CHATROOM_MINIO_SECRET_KEY") cfg.minio_secret_key;
  minio_bucket = override (env "CHATROOM_MINIO_BUCKET") cfg.minio_bucket;
  minio_use_ssl =
      if env "CHATROOM_MINIO_USE_SSL" == ""
      then cfg.minio_use_ssl
      else env "CHATROOM_MINIO_USE_SSL" == "true" || env "CHATROOM_MINIO_USE_SSL" == "1";
  livekit_api_key = override (env "CHATROOM_LIVEKIT_API_KEY") cfg.livekit_api_key;
  livekit_api_secret = override (env "CHATROOM_LIVEKIT_API_SECRET") cfg.livekit_api_secret;
  livekit_public_url = override (env "CHATROOM_LIVEKIT_PUBLIC_URL") cfg.livekit_public_url;
}

module _ (file : String → Option String) (decode : String → Config → Option Config)
    (env : String → String) where
  -- The configuration of the file over the defaults, or none if the file is read but not decoded.
  abbrev pub from_file : Option String → Option Config
  from_file none = some defaults
  from_file (some data') = decode data' defaults

  abbrev pub overridden : Option Config → Option Config
  overridden none = none
  overridden (some cfg) = some (apply_env_overrides env cfg)

  -- `Load`; none is its error.
  unfoldable pub load : String → Option Config
  unfolding apply_env_overrides
  load path = overridden (if path == "" then some defaults else from_file (file path))
