-- ===== src/Config/Tests.antt =====
-- The theorems on the configuration at a concrete file and environment.
use cdevents_otel_bridge.Prelude.{
  String, true, none, some, ◌≡◌, ◌↔◌, refl, ◌<>◌, ◌==◌, arith, if◌then◌else◌,
}
use cdevents_otel_bridge.Prelude.Int.{pos, negsuc, ltb_ℤ}
use cdevents_otel_bridge.Errors.{Result, ok}
use cdevents_otel_bridge.Strconv.{parse_bool, decimal}
use cdevents_otel_bridge.Text.{one_of}
use cdevents_otel_bridge.Config.{
  Config, StorageConfig, default, validate, apply_env_overrides, from_file, load, ttl,
  override_host, override_port, override_storage_type, override_redis_url, override_redis_ttl,
  override_enabled, override_endpoint, override_insecure, override_service_name, override_level,
  override_format, validate_port, validate_storage, validate_ttl, validate_level, validate_format,
  validate_otel,
}
use cdevents_otel_bridge.Config.Laws.{IsValid, validate-IsValid_iff}
use cdevents_otel_bridge.Config.Overrides.{overridden, apply_env_overrides-overridden}
use cdevents_otel_bridge.Config.Loading.{IsBase, load_iff}
use cdevents_otel_bridge.Config.Durations.{ttl_overflows}

abbrev quoted : String → String
quoted s = "\"" <> s <> "\""

abbrev environment : String → String
environment key =
    if key == "BRIDGE_HOST" then "::1" else if key == "BRIDGE_OTEL_ENABLED" then "true" else ""

abbrev file : String → Result String
file path = ok "server: {port: 9090}"

abbrev decode : String → Config → Result Config
decode text c = ok (record c { server = record c.server { port = pos 9090 } })

abbrev loaded : Config
loaded = record default {
  server = record { host = "::1"; port = pos 9090 };
  otel = record default.otel { enabled = true };
}

load_sample : load quoted environment file decode "bridge.yaml" ≡ ok loaded
unfolding load from_file apply_env_overrides override_host override_port override_storage_type
    override_redis_url override_redis_ttl override_enabled override_endpoint override_insecure
    override_service_name override_level override_format parse_bool validate validate_port
    validate_storage validate_ttl validate_level validate_format validate_otel default one_of
load_sample = refl

decimal_sample : decimal (negsuc 1204) ≡ "-1205"
unfolding decimal
decimal_sample = refl

parse_bool_sample : parse_bool "True" ≡ some true
unfolding parse_bool
parse_bool_sample = refl

validate_sample : (validate quoted loaded ≡ none) ↔ IsValid loaded
validate_sample = validate-IsValid_iff quoted loaded

overridden_sample :
    apply_env_overrides quoted environment loaded ≡ overridden quoted environment loaded
overridden_sample = apply_env_overrides-overridden quoted environment loaded

load_iff_example : (load quoted environment file decode "bridge.yaml" ≡ ok loaded) ↔ (
    (base : Config) × IsBase file decode "bridge.yaml" base
    × (overridden quoted environment base ≡ ok loaded)
    × IsValid loaded)
load_iff_example = load_iff quoted environment file decode "bridge.yaml" loaded

abbrev long_lived : StorageConfig
long_lived = record { type = "redis"; redis_url = "redis://localhost"; redis_ttl = pos 10000000000 }

ttl_overflows_example : ltb_ℤ (ttl long_lived) (pos 0) ≡ true
ttl_overflows_example = ttl_overflows long_lived 10000000000 refl (omega arith) (omega arith)
