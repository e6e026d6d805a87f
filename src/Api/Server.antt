-- ===== src/Api/Server.antt =====
-- server.go: the defaults of the options, the address, which requests are traced, and how `Start`
-- ends. The router and the timeouts are configuration of chi and net/http.
use Prim.Native.Char.{code}
use Prim.Native.String.{[], ◌∷◌}
use cdevents_otel_bridge.Prelude.{
  String, Bool, true, false, not, ◌&&◌, ◌<>◌, ◌==◌, Option, none, some, is_empty, eqb,
  if◌then◌else◌,
}
use cdevents_otel_bridge.Prelude.Int.{ℤ}
use cdevents_otel_bridge.Errors.{Error}
use cdevents_otel_bridge.Strconv.{decimal}

abbrev pub health_path : String
health_path = "/api/v1/health"

abbrev pub metrics_path : String
metrics_path = "/metrics"

-- Options, without the storage: the parts that may be left out are `none`.
pub record Options (Correlator Metrics Logger : Type 0) : Type 0 where
  pub host : String
  pub port : ℤ
  pub correlator : Option Correlator
  pub metrics : Option Metrics
  pub logger : Option Logger
  pub version : String
  pub tracing : Bool
  pub service_name : String

abbrev pub or_else {ℓ} : {A : Type ℓ} → A → Option A → A
or_else default none = default
or_else default (some a) = a

abbrev pub text_or : String → String → String
text_or default text = if is_empty text then default else text

-- the defaults that `NewServer` fills in
unfoldable pub with_defaults :
    {Correlator Metrics Logger : Type 0}
    → Correlator
    → Metrics
    → Logger
    → Options Correlator Metrics Logger
    → Options Correlator Metrics Logger
with_defaults correlator metrics logger opts = record {
  host = opts.host;
  port = opts.port;
  correlator = some (or_else correlator opts.correlator);
  metrics = some (or_else metrics opts.metrics);
  logger = some (or_else logger opts.logger);
  version = text_or "dev" opts.version;
  tracing = opts.tracing;
  service_name = text_or "cdevents-otel-bridge" opts.service_name;
}

unfoldable pub has_colon : String → Bool
has_colon [] = false
has_colon (c ∷ s) = let rest = has_colon s in if eqb (code c) b':' then true else rest

-- net.JoinHostPort
unfoldable pub join_host_port : String → String → String
unfolding has_colon
join_host_port host port =
    if has_colon host then "[" <> host <> "]:" <> port else host <> ":" <> port

unfoldable pub addr : String → ℤ → String
unfolding join_host_port
addr host port = join_host_port host (decimal port)

-- the filter of otelhttp
unfoldable pub is_traced : String → Bool
is_traced path = not (path == health_path) && not (path == metrics_path)

-- `ListenAndServe` ends with `http.ErrServerClosed` after `Shutdown`, which is no error.
pub data Served : Type 0 where
  server_closed : Served
  failed : Error → Served

unfoldable pub start : Served → Option Error
start server_closed = none
start (failed e) = some e
