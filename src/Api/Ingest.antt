-- ===== src/Api/Ingest.antt =====
-- handlers.go: `HandlePostEvent`, over any storage.
pub mod Outcomes
use cdevents_otel_bridge.Prelude.{
  ℕ, ◌^◌, String, List, [], ◌∷◌, Option, none, some, Bool, true, false, ◌<>◌, length, ltb,
  if◌then◌else◌,
}
use cdevents_otel_bridge.Errors.{Error, Result, ok, err, message}
use cdevents_otel_bridge.Time.{Time}
use cdevents_otel_bridge.Cdevents.{CdEvent}
use cdevents_otel_bridge.Cdevents.ShortType.{short_type, is_deployment}
use cdevents_otel_bridge.Cdevents.Validator.{validate}
use cdevents_otel_bridge.Cdevents.Parser.{to_deployment}
use cdevents_otel_bridge.Cdevents.Parser.Summary.{parse, to_stored_event}
use cdevents_otel_bridge.Storage.{Context, Storage}
use cdevents_otel_bridge.Api.{
  MetricCall, event_received, event_rejected, observe_processing, Body, success_response, Response,
  respond_json, respond_error, status_created, status_bad_request, status_request_entity_too_large,
  status_internal_server_error,
}

abbrev pub max_body_bytes : ℕ
max_body_bytes = 2 ^ 20

-- A request body: the bytes that arrive, and whether reading then fails.
pub record RequestBody : Type 0 where
  pub bytes : List ℕ
  pub fails : Bool

pub data BodyRead : Type 0 where
  bytes : List ℕ → BodyRead
  too_large unreadable : BodyRead

-- `io.ReadAll` behind `http.MaxBytesReader`
unfoldable pub read_body : RequestBody → BodyRead
read_body b =
    if ltb max_body_bytes (length b.bytes)
    then too_large
    else if b.fails
    then unreadable
    else bytes b.bytes

-- What a request leaves: the response, the state of the storage, and the calls of the metrics.
pub record Outcome (S : Type 0) : Type 0 where
  pub response : Response
  pub state : S
  pub metrics : List MetricCall

-- The parameters: the functions of the standard library, whether a body can be encoded, the
-- storage, the context of the request and the time that processing took.
module _ {S : Type 0} (unmarshal : List ℕ → Result CdEvent) (parse_rfc3339 : String → Option Time)
    (format_rfc3339 : Time → String) (encodes : Body → Bool) (storage : Storage S) (ctx : Context)
    (elapsed : ℕ) where
  -- what is left to do once the deployment, if there is one, is saved
  unfoldable pub ingest_event : S → CdEvent → Outcome S
  ingest_event s event =
      let (result, s') = storage.save_event s ctx (some (to_stored_event parse_rfc3339 event)) in
      elim result [
        | err e ↦ record {
          response =
              respond_error encodes status_internal_server_error "storage_error"
                "Failed to save event";
          state = s';
          metrics = event_rejected "storage" ∷ [];
        }
        | ok _ ↦ record {
          response = respond_json encodes status_created (
              success_response "accepted" event.context.id event.context.type
                (format_rfc3339 event.context.timestamp));
          state = s';
          metrics =
              event_received (short_type event.context.type) ∷ observe_processing elapsed ∷ [];
        }
      ]

  unfoldable pub ingest_deployment : S → CdEvent → Outcome S
  unfolding ingest_event
  ingest_deployment s event =
      let (result, s') = storage.save_deployment s ctx (some (to_deployment event)) in
      elim result [
        | err e ↦ record {
          response =
              respond_error encodes status_internal_server_error "storage_error"
                "Failed to save deployment";
          state = s';
          metrics = event_rejected "storage" ∷ [];
        }
        | ok _ ↦ ingest_event s' event
      ]

  abbrev rejected : S → ℕ → String → String → String → Outcome S
  rejected s status err_type reason text = record {
    response = respond_error encodes status err_type text;
    state = s;
    metrics = event_rejected reason ∷ [];
  }

  unfoldable pub handle_event : S → CdEvent → Outcome S
  unfolding ingest_deployment
  handle_event s event = elim (validate (some event)) [
    | some e ↦
        rejected s status_bad_request "validation_error" "validation"
          ("CDEvent validation failed: " <> message e)
    | none ↦ if is_deployment event then ingest_deployment s event else ingest_event s event
  ]

  unfoldable pub handle_post_event : S → RequestBody → Outcome S
  unfolding handle_event read_body
  handle_post_event s body = elim (read_body body) [
    | too_large ↦
        rejected s status_request_entity_too_large "payload_too_large" "payload_too_large"
          "Request body exceeds 1048576 bytes"
    | unreadable ↦
        rejected s status_bad_request "invalid_request" "unreadable_body"
          "Failed to read request body"
    | bytes body_bytes ↦ elim (parse unmarshal body_bytes) [
      | err e ↦
          rejected s status_bad_request "invalid_event" "parse"
            ("Failed to parse CDEvent: " <> message e)
      | ok event ↦ handle_event s event
    ]
  ]
