-- ===== src/Api.antt =====
-- The package internal/api: responses (responses.go) and the handlers (handlers.go). Logging is not
-- modelled, and what the handlers tell the metrics (internal/metrics) is a list of calls.
pub mod Ingest
pub mod Queries
pub mod Stored
pub mod Middleware
pub mod Server
mod Tests
use cdevents_otel_bridge.Prelude.{ℕ, String, List, Option, Bool, true, false, if◌then◌else◌}
use cdevents_otel_bridge.Models.{Deployment, EventChain}
use cdevents_otel_bridge.Cdevents.{StoredEvent}

-- The calls of `Metrics`: `EventReceived`, `EventRejected` and `ObserveProcessing`.
pub data MetricCall : Type 0 where
  event_received event_rejected : String → MetricCall
  observe_processing : ℕ → MetricCall

-- The values that the handlers encode as JSON.
pub data Body : Type 0 where
  error_response : String → String → Body
  success_response : String → String → String → String → Body
  deployment_response : String → Deployment → String → String → String → Body
  list_response : List Deployment → ℕ → ℕ → Body
  event_response : StoredEvent → Body
  chain_response : EventChain → Body
  health_response : String → String → ℕ → String → Body

pub record Response : Type 0 where
  pub status : ℕ
  pub body : Body

abbrev pub status_ok : ℕ
status_ok = 200

abbrev pub status_created : ℕ
status_created = 201

abbrev pub status_bad_request : ℕ
status_bad_request = 400

abbrev pub status_not_found : ℕ
status_not_found = 404

abbrev pub status_request_entity_too_large : ℕ
status_request_entity_too_large = 413

abbrev pub status_internal_server_error : ℕ
status_internal_server_error = 500

abbrev pub status_service_unavailable : ℕ
status_service_unavailable = 503

-- `json.Marshal(data)` succeeds: the standard library's encoder refuses a time whose year has more
-- than four digits.
module _ (encodes : Body → Bool) where
  unfoldable pub respond_json : ℕ → Body → Response
  respond_json status body =
      if encodes body then record { status = status; body = body } else record {
        status = status_internal_server_error;
        body = error_response "encoding_error" "Failed to encode response";
      }

  unfoldable pub respond_error : ℕ → String → String → Response
  unfolding respond_json
  respond_error status err_type message = respond_json status (error_response err_type message)
