-- ===== src/Config.antt =====
-- The package internal/config (config.go). The file system, the YAML decoder, the environment and
-- the quoting of `%q` are parameters. What the decoder leaves in the configuration when it fails is
-- never read.
pub mod Laws
pub mod Overrides
pub mod Loading
pub mod Durations
mod Tests
use mathlib.Core.List.{[], ◌∷◌}
use cdevents_otel_bridge.Prelude.{
  ℕ, String, Bool, true, false, ◌||◌, ◌&&◌, not, Option, none, some, ◌<>◌, ◌==◌, is_empty, ltb, ◌*◌,
  ◌^◌, ◌%◌, ◌-◌, suc, if◌then◌else◌,
}
use cdevents_otel_bridge.Prelude.Int.{ℤ, pos, negsuc, ltb_ℤ, leb_ℤ}
use cdevents_otel_bridge.Errors.{Error, Result, ok, err, plain, wrap, wrapped, ◌>>=◌}
use cdevents_otel_bridge.Time.{second}
use cdevents_otel_bridge.Text.{one_of}
use cdevents_otel_bridge.Strconv.{atoi, parse_bool, decimal, atoi_error, parse_bool_error}

abbrev pub storage_memory : String
storage_memory = "memory"

abbrev pub storage_redis : String
storage_redis = "redis"

abbrev pub log_format_json : String
log_format_json = "json"

abbrev pub log_format_text : String
log_format_text = "text"

pub record ServerConfig : Type 0 where
  pub host : String
  pub port : ℤ

pub record StorageConfig : Type 0 where
  pub type : String
  pub redis_url : String
  pub redis_ttl : ℤ

pub record OtelConfig : Type 0 where
  pub enabled : Bool
  pub endpoint : String
  pub insecure : Bool
  pub service_name : String

pub record LogConfig : Type 0 where
  pub level : String
  pub format : String

pub record Config : Type 0 where
  pub server : ServerConfig
  pub storage : StorageConfig
  pub otel : OtelConfig
  pub log : LogConfig

unfoldable pub default : Config
default = record {
  server = record { host = "0.0.0.0"; port = pos 8080 };
  storage = record { type = storage_memory; redis_url = ""; redis_ttl = pos 86400 };
  otel = record {
    enabled = false;
    endpoint = "localhost:4317";
    insecure = true;
    service_name = "cdevents-otel-bridge";
  };
  log = record { level = "info"; format = log_format_json };
}

-- The bits of a number, as a signed number of 64 bits.
unfoldable pub to_int64 : ℕ → ℤ
to_int64 n = if ltb n (2 ^ 63) then pos n else negsuc (2 ^ 64 - 1 - n)

-- The product of two signed numbers of 64 bits, of which the second is not negative.
abbrev pub mul_int64 : ℤ → ℕ → ℤ
mul_int64 (pos n) k = to_int64 (n * k % 2 ^ 64)
mul_int64 (negsuc n) k = to_int64 ((2 ^ 64 - suc n * k % 2 ^ 64) % 2 ^ 64)

unfoldable pub ttl : StorageConfig → ℤ
unfolding to_int64
ttl s = mul_int64 s.redis_ttl second

-- The first error of two checks.
infixr 4 ◌and_then◌
abbrev pub ◌and_then◌ : Option Error → Option Error → Option Error
none and_then o = o
some e and_then o = some e

module _ (quote : String → String) where
  unfoldable pub validate_port : ServerConfig → Option Error
  validate_port s =
      if leb_ℤ s.port (pos 0) || ltb_ℤ (pos 65535) s.port
      then some (plain ("invalid server port: " <> decimal s.port))
      else none

  unfoldable pub validate_storage : StorageConfig → Option Error
  validate_storage s =
      if s.type == storage_memory
      then none
      else if s.type == storage_redis
      then (if is_empty s.redis_url
          then some (plain "redis storage requires storage.redisURL to be set")
          else none)
      else some (
          plain (
            "invalid storage type: "
            <> quote s.type
            <> " (must be "
            <> quote storage_memory
            <> " or "
            <> quote storage_redis
            <> ")"))

  unfoldable pub validate_ttl : StorageConfig → Option Error
  validate_ttl s =
      if ltb_ℤ s.redis_ttl (pos 0)
      then some (plain ("invalid redis TTL: " <> decimal s.redis_ttl <> " (must be >= 0)"))
      else none

  unfoldable pub validate_level : LogConfig → Option Error
  validate_level l =
      if one_of ("debug" ∷ "info" ∷ "warn" ∷ "error" ∷ []) l.level
      then none
      else some (
          plain
            ("invalid log level: " <> quote l.level <> " (must be debug, info, warn, or error)"))

  unfoldable pub validate_format : LogConfig → Option Error
  validate_format l =
      if one_of (log_format_json ∷ log_format_text ∷ []) l.format
      then none
      else some (plain ("invalid log format: " <> quote l.format <> " (must be json or text)"))

  unfoldable pub validate_otel : OtelConfig → Option Error
  validate_otel o =
      if o.enabled
      then if is_empty o.endpoint
        then some (plain "otel.endpoint is required when otel is enabled")
        else if is_empty o.service_name
        then some (plain "otel.serviceName is required when otel is enabled")
        else none
      else none

  unfoldable pub validate : Config → Option Error
  validate c =
      validate_port c.server
      and_then validate_storage c.storage
      and_then validate_ttl c.storage
      and_then validate_level c.log
      and_then validate_format c.log
      and_then validate_otel c.otel

-- `if v := os.Getenv(key); v != "" { ... }`
module _ (quote : String → String) (getenv : String → String) where
  abbrev pub override : String → (String → Config → Result Config) → Config → Result Config
  override key assign c = let v = getenv key in if is_empty v then ok c else assign v c

  abbrev pub override_text : String → (String → Config → Config) → Config → Result Config
  override_text key assign = override key (λ v c. ok (assign v c))

  abbrev pub parsed {ℓ} :
      {A : Type ℓ}
      → String
      → String
      → Error
      → Option A
      → (A → Config → Config)
      → Config
      → Result Config
  parsed key v e none assign c = err (wrap ("invalid " <> key <> " " <> quote v <> ": ") e "")
  parsed key v e (some a) assign c = ok (assign a c)

  abbrev pub override_int : String → (ℤ → Config → Config) → Config → Result Config
  override_int key assign = override key (λ v. parsed key v (atoi_error quote v) (atoi v) assign)

  abbrev pub override_bool : String → (Bool → Config → Config) → Config → Result Config
  override_bool key assign =
      override key (λ v. parsed key v (parse_bool_error quote v) (parse_bool v) assign)

  unfoldable pub override_host : Config → Result Config
  override_host =
      override_text "BRIDGE_HOST" (λ v c. record c { server = record c.server { host = v } })

  unfoldable pub override_port : Config → Result Config
  override_port =
      override_int "BRIDGE_PORT" (λ v c. record c { server = record c.server { port = v } })

  unfoldable pub override_storage_type : Config → Result Config
  override_storage_type =
      override_text "BRIDGE_STORAGE_TYPE"
        (λ v c. record c { storage = record c.storage { type = v } })

  unfoldable pub override_redis_url : Config → Result Config
  override_redis_url =
      override_text "BRIDGE_REDIS_URL"
        (λ v c. record c { storage = record c.storage { redis_url = v } })

  unfoldable pub override_redis_ttl : Config → Result Config
  override_redis_ttl =
      override_int "BRIDGE_REDIS_TTL"
        (λ v c. record c { storage = record c.storage { redis_ttl = v } })

  unfoldable pub override_enabled : Config → Result Config
  override_enabled =
      override_bool "BRIDGE_OTEL_ENABLED" (λ v c. record c { otel = record c.otel { enabled = v } })

  unfoldable pub override_endpoint : Config → Result Config
  override_endpoint =
      override_text "BRIDGE_OTEL_ENDPOINT"
        (λ v c. record c { otel = record c.otel { endpoint = v } })

  unfoldable pub override_insecure : Config → Result Config
  override_insecure =
      override_bool "BRIDGE_OTEL_INSECURE"
        (λ v c. record c { otel = record c.otel { insecure = v } })

  unfoldable pub override_service_name : Config → Result Config
  override_service_name =
      override_text "BRIDGE_OTEL_SERVICE_NAME"
        (λ v c. record c { otel = record c.otel { service_name = v } })

  unfoldable pub override_level : Config → Result Config
  override_level =
      override_text "BRIDGE_LOG_LEVEL" (λ v c. record c { log = record c.log { level = v } })

  unfoldable pub override_format : Config → Result Config
  override_format =
      override_text "BRIDGE_LOG_FORMAT" (λ v c. record c { log = record c.log { format = v } })

  unfoldable pub apply_env_overrides : Config → Result Config
  apply_env_overrides cfg =
      override_host cfg
      >>= override_port
      >>= override_storage_type
      >>= override_redis_url
      >>= override_redis_ttl
      >>= override_enabled
      >>= override_endpoint
      >>= override_insecure
      >>= override_service_name
      >>= override_level
      >>= override_format

  module _ (read_file : String → Result String) (unmarshal : String → Config → Result Config) where
    -- the first two layers: the defaults and the file
    unfoldable pub from_file : String → Result Config
    from_file path =
        if is_empty path
        then ok default
        else wrapped "failed to read config file: " (read_file path) >>= (λ text.
          wrapped ("failed to parse config file " <> path <> ": ") (unmarshal text default))

    abbrev pub validated : Config → Option Error → Result Config
    validated cfg none = ok cfg
    validated cfg (some e) = err (wrap "invalid configuration: " e "")

    unfoldable pub load : String → Result Config
    load path =
        from_file path >>= apply_env_overrides >>= (λ cfg. validated cfg (validate quote cfg))
