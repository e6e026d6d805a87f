-- ===== src/Command.antt =====
-- The main program (cmd/bridge/main.go): where the configuration comes from, the storage it picks,
-- the level of the log, and the order in which the program starts and stops its parts. Logging is
-- left out. What the parts return is a parameter.
pub mod Laws
pub mod Tracer
mod Tests
use mathlib.Core.List.{[], ◌∷◌}
use cdevents_otel_bridge.Prelude.{
  String, List, ◌++◌, Option, none, some, Bool, true, false, not, ◌&&◌, ◌<>◌, ◌==◌, is_empty,
  if◌then◌else◌,
}
use cdevents_otel_bridge.Prelude.Int.{ℤ}
use cdevents_otel_bridge.Errors.{Error, Result, ok, err, plain, wrap, wrapped, is_not_exist, ◌>>=◌}
use cdevents_otel_bridge.Config.{
  Config, StorageConfig, LogConfig, OtelConfig, storage_redis, log_format_text, ttl,
}

abbrev pub default_config_path : String
default_config_path = "configs/config.yaml"

-- The path of the configuration file: the flag's, the environment's, or the default one if it is
-- there; `exists` is whether `os.Stat` succeeds.
unfoldable pub config_path : (String → String) → (String → Bool) → String → String
config_path getenv exists path =
    if not (is_empty path)
    then path
    else if not (is_empty (getenv "BRIDGE_CONFIG"))
    then getenv "BRIDGE_CONFIG"
    else if exists default_config_path
    then default_config_path
    else ""

unfoldable pub load_config :
    (String → String) → (String → Bool) → (String → Result Config) → String → Result Config
unfolding config_path
load_config getenv exists load flag =
    let path = config_path getenv exists flag in
    elim (load path) [
      | ok cfg ↦ ok cfg
      | err e ↦
          if not (is_empty path) && is_not_exist e
          then err (plain ("config file " <> path <> " does not exist"))
          else err e
    ]

unfoldable pub new_storage {ℓ} :
    {Store : Type ℓ} → (String → ℤ → Result Store) → Store → StorageConfig → Result Store
new_storage new_redis_storage memory cfg =
    if cfg.type == storage_redis
    then wrapped "failed to connect to redis: " (new_redis_storage cfg.redis_url (ttl cfg))
    else ok memory

pub data Level : Type 0 where
  level_debug level_info level_warn level_error : Level

pub data LogHandler : Type 0 where
  text_handler json_handler : Level → LogHandler

unfoldable pub level_of : String → Level
level_of level =
    if level == "debug"
    then level_debug
    else if level == "warn"
    then level_warn
    else if level == "error"
    then level_error
    else level_info

unfoldable pub new_logger : LogConfig → LogHandler
unfolding level_of
new_logger cfg =
    if cfg.format == log_format_text
    then text_handler (level_of cfg.level)
    else json_handler (level_of cfg.level)

-- What the program does to its parts, in order.
pub data Action : Type 0 where
  print_version open_storage start_tracer start_server : Action
  shut_down_server shut_down_tracer close_storage : Action

-- How `select` ends: the server ended, with the error of `Start`, or a signal came.
pub data Stop : Type 0 where
  server_ended : Option Error → Stop
  signalled : Stop

-- What the parts return.
pub record Parts {ℓ} (Store : Type ℓ) : Type ℓ where
  pub config : Result Config
  pub storage : StorageConfig → Result Store
  -- the error of `NewTracerProvider`
  pub tracer : OtelConfig → Option Error
  pub stop : Stop

abbrev pub Run : Type 0
Run = Option Error × List Action

module _ {ℓ} {Store : Type ℓ} (parts : Parts Store) where
  -- the rest of `run` once the server is made; the deferred `Close` comes after it
  unfoldable pub run_server : Bool → Run
  run_server tracing = elim parts.stop [
    | server_ended (some e) ↦ (some (wrap "server failed: " e ""), start_server ∷ [])
    | server_ended none ↦ (none, start_server ∷ [])
    | signalled ↦
        (none, start_server ∷ shut_down_server ∷ (if tracing then shut_down_tracer ∷ [] else []))
  ]

  -- the rest of `run` once the storage is there
  unfoldable pub run_parts : Config → Run
  unfolding run_server
  run_parts cfg =
      if cfg.otel.enabled
      then elim (parts.tracer cfg.otel) [
        | some e ↦ (some (wrap "failed to initialize OpenTelemetry: " e ""), [])
        | none ↦ let (error, actions) = run_server true in (error, start_tracer ∷ actions)
      ]
      else run_server false

  unfoldable pub run : Bool → Run
  unfolding run_parts
  run show_version = if show_version then (none, print_version ∷ []) else elim parts.config [
    | err e ↦ (some e, [])
    | ok cfg ↦ elim (parts.storage cfg.storage) [
      | err e ↦ (some e, [])
      | ok store ↦
          let (error, actions) = run_parts cfg in
          (error, open_storage ∷ (actions ++ (close_storage ∷ [])))
    ]
  ]
