-- ===== src/Otelbridge/Client/Tests.antt =====
-- The theorems on the client at concrete options and over a concrete bridge.
use mathlib.Core.List.{[], ◌∷◌}
use mathlib.Core.List.Permᴰ
use cdevents_otel_bridge.Prelude.{
  ℕ, String, List, Bool, true, Option, none, some, ◌≡◌, refl, sym, ap, ◌∙◌, ◌<>◌, ◌==◌, eq_iff,
  arith, false_not_true, length, ◌<◌, is_empty, if◌then◌else◌,
}
use cdevents_otel_bridge.Prelude.Int.{pos}
use cdevents_otel_bridge.Errors.{Result, ok, err, plain, ok_inj}
use cdevents_otel_bridge.Dict
use cdevents_otel_bridge.Dict.{MapRange}
use cdevents_otel_bridge.Url.{is_unreserved, is_segment_character}
use cdevents_otel_bridge.Models.{Deployment}
use cdevents_otel_bridge.Cdevents.{StoredEvent}
use cdevents_otel_bridge.Storage.{Context}
use cdevents_otel_bridge.Storage.Memory.{
  MemoryStorage, memory_storage, new_memory_storage, save_deployment, get_deployment,
  deployment_key,
}
use cdevents_otel_bridge.Storage.Memory.Lookups.{live}
use cdevents_otel_bridge.Api.{Body, Response, respond_json, deployment_response}
use cdevents_otel_bridge.Api.Queries.{stored_deployment, handle_get_deployment}
use cdevents_otel_bridge.Storage.Redis.{Codec, RedisStorage}
use cdevents_otel_bridge.Storage.Redis.Server.{Encodes}
use cdevents_otel_bridge.Storage.Redis.Invariant.{new-IsValid}
use cdevents_otel_bridge.Storage.Redis.Sample.{
  Sample, sample_client, sample_server, sample-IsReached, new_sample, new_sample-IsNew,
}
use cdevents_otel_bridge.Storage.Redis.Codes.{
  two_records, same_texts, same_deployment, same_event, event_from,
}
use cdevents_otel_bridge.Otelbridge.Client.Stored.{answered, get_deployment_comes_back}
use cdevents_otel_bridge.Otelbridge.Client
use cdevents_otel_bridge.Otelbridge.Client.{
  HttpClients, Client, HttpResponse, ClientOption, with_environment, with_request_timeout,
  with_http_client, new_client, endpoint, max_response_bytes,
}
use cdevents_otel_bridge.Otelbridge.Client.Options.{IsOwn, new_client-IsOwn}
use cdevents_otel_bridge.Otelbridge.Client.Requests.{
  IsSegment, IsQueryValue, endpoint_parts, address,
}
use cdevents_otel_bridge.Url.Laws.{IsUnreserved}
use cdevents_otel_bridge.Url.Decoding.{bytes_of, path_bytes, query_bytes}
use cdevents_otel_bridge.Otelbridge.Client.Bridge.{IsBridged, sent, get_deployment-IsBridged}

abbrev clients : HttpClients
clients = record { timeout = λ a. pos 30000000000; next = 4 }

abbrev options : List ClientOption
options = with_environment "prod" ∷ with_request_timeout (pos 500000000) ∷ []

new_client_sample : IsOwn clients 4 (new_client clients "http://bridge:8080/" options)
new_client_sample = new_client-IsOwn clients "http://bridge:8080/" options (tt, (tt, tt))

abbrev client : Client
client = record { base_url = "http://bridge:8080"; environment = "prod"; http_client = 4 }

endpoint_parts_example :
    (segment : String) × (query : String) × (endpoint client "a/b?c" "é&x=1"
      ≡ client.base_url
        <> "/api/v1/deployments/"
        <> segment
        <> (if is_empty "é&x=1" then "" else "?environment=" <> query))
    × IsSegment segment
    × IsQueryValue query
    × (path_bytes segment ≡ bytes_of "a/b?c")
    × (query_bytes query ≡ bytes_of "é&x=1")
endpoint_parts_example = endpoint_parts client "a/b?c" "é&x=1"

endpoint_sample :
    endpoint client "a/b?c" "é&x=1"
    ≡ "http://bridge:8080/api/v1/deployments/a%2Fb%3Fc?environment=%C3%A9%26x%3D1"
unfolding endpoint is_unreserved is_segment_character
endpoint_sample = refl

abbrev in_prod : Deployment
in_prod = record {
  id = "d";
  service = "cart";
  version = "1.0.0";
  environment = "prod";
  commit_sha = "";
  repository = "";
  branch = "";
  author = "";
  pipeline_id = "";
  pipeline_url = "";
  deployed_at = 5;
  deployed_by = "";
  event_id = "e";
  chain_id = "";
  links = [];
}

abbrev held : MemoryStorage
held = (save_deployment new_memory_storage live (some in_prod)).1

abbrev visit_deployments : MapRange Deployment
visit_deployments = record { visit = λ vs. vs; visit-perm = λ vs. Permᴰ.refl vs }

abbrev visit_events : MapRange StoredEvent
visit_events = record { visit = λ vs. vs; visit-perm = λ vs. Permᴰ.refl vs }

abbrev encodes : Body → Bool
encodes body = true

abbrev parse_no_time : String → Option ℕ
parse_no_time text = none

abbrev encode : Body → List ℕ
encode (deployment_response service d self event chain) = b'{' ∷ b'}' ∷ []
encode body = []

abbrev decode : List ℕ → Result (Option Deployment)
decode [] = ok none
decode (b ∷ bs) = ok (some in_prod)

abbrev request : Context → String → Result String
request ctx url = ok url

abbrev bridge : HttpClients → ℕ → String → Result HttpResponse
bridge _ number url =
    if url == "http://bridge:8080/api/v1/deployments/cart?environment=prod"
    then ok (
        sent encode (
          handle_get_deployment parse_no_time encodes
            (memory_storage visit_deployments visit_events) live held "cart" "prod"))
    else err (plain "404 page not found")

cart-IsUnreserved : IsUnreserved "cart"
unfolding is_unreserved
cart-IsUnreserved = (refl, (refl, (refl, (refl, tt))))

prod-IsUnreserved : IsUnreserved "prod"
unfolding is_unreserved
prod-IsUnreserved = (refl, (refl, (refl, (refl, tt))))

stored_in_prod :
    stored_deployment parse_no_time encodes
      (memory_storage visit_deployments visit_events)
      live
      held
      "cart"
      "prod"
    ≡ ok in_prod
unfolding get_deployment save_deployment new_memory_storage Dict.get Dict.put deployment_key
stored_in_prod = refl

abbrev memory_answer : Response
memory_answer =
    handle_get_deployment parse_no_time encodes (memory_storage visit_deployments visit_events) live
      held "cart" "prod"

short : length (encode memory_answer.body) < max_response_bytes
unfolding handle_get_deployment respond_json get_deployment save_deployment new_memory_storage
    Dict.get Dict.put deployment_key
short = omega arith

decoded :
    (d : Deployment) (self event chain : String)
    → stored_deployment parse_no_time encodes
        (memory_storage visit_deployments visit_events)
        live
        held
        "cart"
        "prod"
      ≡ ok d
    → decode (encode (deployment_response "cart" d self event chain)) ≡ ok (some d)
decoded d self event chain e = ap (λ x. ok (some x)) (ok_inj (sym stored_in_prod ∙ e))

get_deployment-IsBridged_example :
    IsBridged
      (stored_deployment parse_no_time encodes
        (memory_storage visit_deployments visit_events)
        live
        held
        "cart"
        "prod")
      (Client.get_deployment request bridge (λ bs. "") decode clients live client "cart" "prod")
get_deployment-IsBridged_example =
    get_deployment-IsBridged request bridge (λ bs. "") decode encode parse_no_time encodes
      (memory_storage visit_deployments visit_events) live held "cart" "prod" (λ body. refl)
      (λ e. absurd (false_not_true ((eq_iff "cart" "").1 e))) short decoded clients live client
      (address client.base_url "cart" "prod") cart-IsUnreserved prod-IsUnreserved refl refl

-- The bridge over a Redis server in memory.
abbrev other_deployment : Deployment
other_deployment = record in_prod { environment = "test" }

abbrev no_event : StoredEvent
no_event = event_from [] 0

abbrev deployments : Codec Deployment
deployments = two_records same_deployment in_prod other_deployment

abbrev events : Codec StoredEvent
events = two_records same_event no_event no_event

abbrev empty_redis : RedisStorage Sample
empty_redis = record { server = new_sample; ttl = pos 0 }

prod-code : Encodes deployments in_prod "1"
unfolding same_texts
prod-code = (refl, refl)

abbrev redis_answer : Response
redis_answer =
    answered sample_client sample_server sample-IsReached deployments events parse_no_time encodes 1
      empty_redis in_prod

abbrev encode_shortly : Body → List ℕ
encode_shortly body = b'{' ∷ b'}' ∷ []

abbrev redis_bridge : HttpClients → ℕ → String → Result HttpResponse
redis_bridge _ number url =
    if url == "http://bridge:8080/api/v1/deployments/cart?environment=prod"
    then ok (sent encode_shortly redis_answer)
    else err (plain "404 page not found")

get_deployment_comes_back_example :
    Client.get_deployment request redis_bridge (λ bs. "") decode clients live client "cart" "prod"
    ≡ ok in_prod
get_deployment_comes_back_example =
    get_deployment_comes_back sample_client sample_server sample-IsReached deployments events
      parse_no_time encodes 1 empty_redis in_prod request redis_bridge (λ bs. "") decode
      encode_shortly clients live client (address client.base_url "cart" "prod") "1"
      (new-IsValid sample_client sample_server deployments events new_sample new_sample-IsNew)
      prod-code (λ e. false_not_true ((eq_iff "cart" "").1 e))
      (λ e. false_not_true ((eq_iff "prod" "").1 e)) (λ body. refl) (omega arith)
      (λ self event chain. refl) cart-IsUnreserved prod-IsUnreserved refl refl
