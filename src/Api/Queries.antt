-- ===== src/Api/Queries.antt =====
-- handlers.go: the read endpoints, over any storage and context.
pub mod Laws
use cdevents_otel_bridge.Prelude.{
  ℕ, zero, suc, String, List, Option, none, some, Bool, true, false, ◌<>◌, is_empty, length, ltb,
  if◌then◌else◌,
}
use cdevents_otel_bridge.Prelude.Int.{ℤ, pos, negsuc}
use cdevents_otel_bridge.Errors.{Error, Result, ok, err, is_not_found, message}
use cdevents_otel_bridge.Strconv.{atoi}
use cdevents_otel_bridge.Time.{Time, zero_time}
use cdevents_otel_bridge.Models.{Deployment, EventChain}
use cdevents_otel_bridge.Cdevents.{StoredEvent}
use cdevents_otel_bridge.Storage.{Context, ListFilter, Storage}
use cdevents_otel_bridge.Api.{
  Body, deployment_response, list_response, event_response, chain_response, health_response,
  Response, respond_json, respond_error, status_ok, status_bad_request, status_not_found,
  status_internal_server_error, status_service_unavailable,
}

abbrev pub default_list_limit : ℕ
default_list_limit = 50

abbrev pub max_list_limit : ℕ
max_list_limit = 100

-- the test and the clamp of the `limit` parameter, `none` where the request is refused
abbrev pub clamp_limit : Option ℤ → Option ℕ
clamp_limit none = none
clamp_limit (some (negsuc n)) = none
clamp_limit (some (pos zero)) = none
clamp_limit (some (pos (suc n))) =
    some (if ltb max_list_limit (suc n) then max_list_limit else suc n)

unfoldable pub limit_of : String → Option ℕ
unfolding atoi
limit_of text = if is_empty text then some default_list_limit else clamp_limit (atoi text)

-- the `since` parameter, `none` where the request is refused
unfoldable pub since_of : (String → Option Time) → String → Option Time
since_of parse_rfc3339 text = if is_empty text then some zero_time else parse_rfc3339 text

module _ {S : Type 0} (parse_rfc3339 : String → Option Time) (encodes : Body → Bool)
    (storage : Storage S) (ctx : Context) (s : S) where
  abbrev pub stored_deployment : String → String → Result Deployment
  stored_deployment service environment =
      if is_empty environment
      then storage.get_latest_deployment s ctx service
      else storage.get_deployment s ctx service environment

  abbrev pub not_found_message : String → String → String
  not_found_message service environment =
      let text = "No deployment found for service '" <> service <> "'" in
      if is_empty environment then text else text <> " in environment '" <> environment <> "'"

  unfoldable pub handle_get_deployment : String → String → Response
  handle_get_deployment service environment =
      if is_empty service
      then respond_error encodes status_bad_request "invalid_request" "Service name is required"
      else elim (stored_deployment service environment) [
        | ok d ↦ respond_json encodes status_ok (
            deployment_response service d
              ("/api/v1/deployments/" <> service <> "?environment=" <> d.environment)
              ("/api/v1/events/" <> d.event_id) ("/api/v1/chain/" <> d.event_id))
        | err e ↦ elim (is_not_found e) [
          | true ↦
              respond_error encodes status_not_found "not_found"
                (not_found_message service environment)
          | false ↦
              respond_error encodes status_internal_server_error "storage_error"
                "Failed to retrieve deployment"
        ]
      ]

  unfoldable pub handle_list_deployments : String → String → String → Response
  unfolding limit_of since_of
  handle_list_deployments environment limit_str since_str = elim (limit_of limit_str) [
    | none ↦
        respond_error encodes status_bad_request "invalid_request"
          "Invalid limit parameter: must be a positive integer"
    | some limit ↦ elim (since_of parse_rfc3339 since_str) [
      | none ↦
          respond_error encodes status_bad_request "invalid_request"
            "Invalid since parameter: must be an RFC 3339 timestamp"
      | some since ↦
          elim (storage.list_deployments s ctx
            (record { environment = environment; since = since; limit = pos limit })) [
              | err e ↦
                  respond_error encodes status_internal_server_error "storage_error"
                    "Failed to list deployments"
              | ok deployments ↦
                  respond_json encodes status_ok
                    (list_response deployments (length deployments) limit)
            ]
    ]
  ]

  unfoldable pub handle_get_event : String → Response
  handle_get_event event_id =
      if is_empty event_id
      then respond_error encodes status_bad_request "invalid_request" "Event ID is required"
      else elim (storage.get_event s ctx event_id) [
        | ok e ↦ respond_json encodes status_ok (event_response e)
        | err e ↦ elim (is_not_found e) [
          | true ↦
              respond_error encodes status_not_found "not_found" ("Event not found: " <> event_id)
          | false ↦
              respond_error encodes status_internal_server_error "storage_error"
                "Failed to retrieve event"
        ]
      ]

  -- the correlator is what it returns for the event
  unfoldable pub handle_get_chain : (String → Result EventChain) → String → Response
  handle_get_chain build_chain event_id =
      if is_empty event_id
      then respond_error encodes status_bad_request "invalid_request" "Event ID is required"
      else elim (build_chain event_id) [
        | ok chain ↦ respond_json encodes status_ok (chain_response chain)
        | err e ↦ elim (is_not_found e) [
          | true ↦
              respond_error encodes status_not_found "not_found" ("Event not found: " <> event_id)
          | false ↦
              respond_error encodes status_internal_server_error "correlation_error"
                "Failed to build event chain"
        ]
      ]

  unfoldable pub handle_health : String → ℕ → Response
  handle_health version uptime = elim (storage.ping s ctx) [
    | none ↦ respond_json encodes status_ok (health_response "healthy" version uptime "ok")
    | some e ↦
        respond_json encodes status_service_unavailable
          (health_response "unhealthy" version uptime (message e))
  ]
