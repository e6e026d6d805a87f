-- ===== src/Api/Tests.antt =====
-- The theorems on the handlers, for a request that posts a deployment to an empty in-memory storage.
use cdevents_otel_bridge.Dict.Samples.{in_order}
use cdevents_otel_bridge.Prelude.{
  ℕ, String, List, [], ◌∷◌, ◌≡◌, refl, Option, none, some, Bool, true, false, ◌<>◌,
}
use cdevents_otel_bridge.Errors.{Result, ok}
use cdevents_otel_bridge.Time.{Time}
use cdevents_otel_bridge.Dict
use cdevents_otel_bridge.Dict.{MapRange}
use cdevents_otel_bridge.Models.{EventChain}
use cdevents_otel_bridge.Models.Json.{str, field, end}
use cdevents_otel_bridge.Cdevents.{CdEvent}
use cdevents_otel_bridge.Cdevents.ShortType.{short_type, is_deployment}
use cdevents_otel_bridge.Cdevents.Fields.{first_non_empty, get_nested_string, get_string_field}
use cdevents_otel_bridge.Cdevents.Links.{normalize_links}
use cdevents_otel_bridge.Cdevents.Validator.{validate}
use cdevents_otel_bridge.Cdevents.Parser.{to_deployment}
use cdevents_otel_bridge.Cdevents.Parser.Summary.{parse, to_stored_event}
use cdevents_otel_bridge.Storage.Memory.{
  MemoryStorage, new_memory_storage, memory_storage, save_deployment, save_event, get_event,
  get_events_by_chain,
}
use cdevents_otel_bridge.Storage.Memory.Lookups.{live}
use cdevents_otel_bridge.Correlator.Chain.{build_chain}
use cdevents_otel_bridge.Api.{
  Body, event_response, deployment_response, chain_response, respond_json, status_ok,
}
use cdevents_otel_bridge.Api.Ingest.{RequestBody, bytes, read_body, Outcome, handle_post_event}
use cdevents_otel_bridge.Api.Ingest.Outcomes.{
  IsAccepted, IsCounted, handle_post_event-IsAccepted, handle_post_event-IsCounted,
}
use cdevents_otel_bridge.Api.Queries.{handle_get_deployment, handle_get_event, handle_get_chain}
use cdevents_otel_bridge.Api.Stored.{
  handle_get_event-post, handle_get_deployment-post, handle_get_chain-post,
}

abbrev deployed : CdEvent
deployed = record {
  context = record {
    version = "0.4.1";
    id = "event";
    source = "ci";
    type = "dev.cdevents.service.deployed.0.1.1";
    timestamp = 5;
    chain_id = "";
    links = [];
  };
  subject = record {
    id = "cart";
    source = "";
    type = "service";
    content = some (field "environment" (str "prod") end);
  };
  custom_data = none;
  links = [];
}

-- the functions of the standard library, for this request
abbrev unmarshal : List ℕ → Result CdEvent
unmarshal read = ok deployed

abbrev no_times : String → Option Time
no_times text = none

abbrev text_of : Time → String
text_of t = "0001-01-01T00:00:00Z"

abbrev encodes : Body → Bool
encodes body = true

abbrev request : RequestBody
request = record { bytes = 123 ∷ 125 ∷ []; fails = false }

abbrev outcome : Outcome MemoryStorage
outcome =
    handle_post_event unmarshal no_times text_of encodes (memory_storage in_order in_order) live 7
      new_memory_storage request

created : outcome.response.status ≡ 201
unfolding handle_post_event parse validate normalize_links is_deployment short_type save_deployment
    save_event respond_json
created = refl

parsed : parse unmarshal request.bytes ≡ ok deployed
unfolding parse normalize_links
parsed = refl

was_read : read_body request ≡ bytes request.bytes
unfolding read_body
was_read = refl

handle_post_event-IsAccepted_example :
    (read : List ℕ) × (event : CdEvent) × (read_body request ≡ bytes read)
    × (parse unmarshal read ≡ ok event)
    × IsAccepted unmarshal no_times text_of encodes
        (memory_storage in_order in_order)
        live
        7
        new_memory_storage
        event
        outcome
handle_post_event-IsAccepted_example =
    handle_post_event-IsAccepted unmarshal no_times text_of encodes
      (memory_storage in_order in_order) live 7 new_memory_storage request created

handle_post_event-IsCounted_example :
    IsCounted unmarshal no_times text_of encodes
      (memory_storage in_order in_order)
      live
      7
      new_memory_storage
      outcome
handle_post_event-IsCounted_example =
    handle_post_event-IsCounted unmarshal no_times text_of encodes
      (memory_storage in_order in_order) live 7 new_memory_storage request

handle_get_event-post_example :
    handle_get_event no_times encodes (memory_storage in_order in_order) live outcome.state "event"
    ≡ respond_json encodes status_ok (event_response (to_stored_event no_times deployed))
handle_get_event-post_example =
    handle_get_event-post unmarshal no_times text_of encodes in_order in_order 7 new_memory_storage
      request deployed (request.bytes, was_read, parsed) created

handle_get_deployment-post_example :
    handle_get_deployment no_times encodes
      (memory_storage in_order in_order)
      live
      outcome.state
      (to_deployment deployed).service
      (to_deployment deployed).environment
    ≡ respond_json encodes status_ok (
        deployment_response
          (to_deployment deployed).service
          (to_deployment deployed)
          ("/api/v1/deployments/"
            <> (to_deployment deployed).service
            <> "?environment="
            <> (to_deployment deployed).environment)
          "/api/v1/events/event"
          "/api/v1/chain/event")
unfolding is_deployment short_type to_deployment first_non_empty get_nested_string get_string_field
handle_get_deployment-post_example =
    handle_get_deployment-post unmarshal no_times text_of encodes in_order in_order 7
      new_memory_storage request deployed (request.bytes, was_read, parsed) created refl refl

handle_get_chain-post_example :
    (chain : EventChain) × (build_chain
        (get_event outcome.state live)
        (get_events_by_chain in_order outcome.state live)
        in_order
        "event"
      ≡ ok chain)
    × (handle_get_chain no_times encodes
          (memory_storage in_order in_order)
          live
          outcome.state
          (build_chain
            (get_event outcome.state live)
            (get_events_by_chain in_order outcome.state live)
            in_order)
          "event"
        ≡ respond_json encodes status_ok (chain_response chain))
handle_get_chain-post_example =
    handle_get_chain-post unmarshal no_times text_of encodes in_order in_order 7 new_memory_storage
      request deployed (request.bytes, was_read, parsed) created in_order
