-- ===== src/Otelbridge/Client/Stored.antt =====
-- client.go, handlers.go and redis.go together: a deployment that the bridge saved in Redis comes
-- back through the client.
use mathlib.Core.Path.{subst}
use cdevents_otel_bridge.Prelude.{
  ℕ, ◌<◌, String, List, Bool, true, false, Option, some, ◌≡◌, ◌≢◌, refl, sym, ◌∙◌, is_empty, length,
  eq_iff, eq_refl, arith,
}
use cdevents_otel_bridge.Errors.{Result, ok, ok_inj}
use cdevents_otel_bridge.Time.{Time}
use cdevents_otel_bridge.Models.{Deployment}
use cdevents_otel_bridge.Cdevents.{StoredEvent}
use cdevents_otel_bridge.Storage.{Context}
use cdevents_otel_bridge.Storage.Memory.Lookups.{live}
use cdevents_otel_bridge.Storage.Redis
use cdevents_otel_bridge.Storage.Redis.{Codec, RedisStorage, save_deployment, redis_deployment_key}
use cdevents_otel_bridge.Storage.Redis.Backend.{redis_storage}
use cdevents_otel_bridge.Storage.Redis.Server.{Server, IsReached, Encodes}
use cdevents_otel_bridge.Storage.Redis.Invariant.{IsValid}
use cdevents_otel_bridge.Storage.Redis.Lookups.{get_deployment_saved}
use cdevents_otel_bridge.Api.{Body, Response, deployment_response}
use cdevents_otel_bridge.Api.Queries.{handle_get_deployment, stored_deployment}
use cdevents_otel_bridge.Otelbridge.Client.{
  Client, HttpClients, HttpResponse, get_deployment, max_response_bytes,
}
use cdevents_otel_bridge.Url.Laws.{IsUnreserved}
use cdevents_otel_bridge.Otelbridge.Client.Requests.{address}
use cdevents_otel_bridge.Otelbridge.Client.Bridge.{IsBridged, sent, get_deployment-IsBridged}

module _ {S : Type 0} (client : Redis.Client S) (server : Server client)
    (reached : IsReached client server) (deployments : Codec Deployment)
    (events : Codec StoredEvent) (parse_rfc3339 : String → Option Time) (encodes : Body → Bool)
    (fuel : ℕ) (r : RedisStorage S) (d : Deployment) where
  -- the storage of the bridge once the deployment is saved
  abbrev pub saved : RedisStorage S
  saved = (save_deployment client deployments r live (some d)).1

  stored_saved :
      (t : String)
      → IsValid client server deployments events r.server
      → Encodes deployments d t
      → d.environment ≢ ""
      → stored_deployment parse_rfc3339 encodes
          (redis_storage client deployments events fuel)
          live
          saved
          d.service
          d.environment
        ≡ ok d
  stored_saved t v p h =
      let set : is_empty d.environment ≡ false = ground (arith, eq_iff d.environment "", h) in
      rw set (
        get_deployment_saved client server reached deployments events r d t d.service d.environment
          v p
        ∙ rw (eq_refl (redis_deployment_key d.service d.environment)) refl)

  -- The response of the bridge to the query for the deployment.
  abbrev pub answered : Response
  answered =
      handle_get_deployment parse_rfc3339 encodes (redis_storage client deployments events fuel)
        live saved d.service d.environment

  -- A deployment that names its service and its environment and is encoded and decoded back comes
  -- back through the client, once it is saved by the Redis backend over a reached and valid server,
  -- if both names are made of letters, digits, hyphens, dots, underscores and tildes, and the
  -- bridge answers a request for the URL below its base that has them as they are, with the
  -- response of `GET /deployments/{service}` for both, and that comes back whole: what the bridge
  -- sends can be encoded, is shorter than the limit of the client and is decoded to what it was.
  pub get_deployment_comes_back :
      {Request : Type 0} (new_request : Context → String → Result Request)
      (do_request : HttpClients → ℕ → Request → Result HttpResponse) (text_of : List ℕ → String)
      (unmarshal : List ℕ → Result (Option Deployment)) (encode : Body → List ℕ)
      (clients : HttpClients) (client_ctx : Context) (c : Client) (req : Request) (t : String)
      → IsValid client server deployments events r.server
      → Encodes deployments d t
      → d.service ≢ ""
      → d.environment ≢ ""
      → ((body : Body) → encodes body ≡ true)
      → length (encode answered.body) < max_response_bytes
      → ((self event chain : String)
          → unmarshal (encode (deployment_response d.service d self event chain)) ≡ ok (some d))
      → IsUnreserved d.service
      → IsUnreserved d.environment
      → new_request client_ctx (address c.base_url d.service d.environment) ≡ ok req
      → do_request clients c.http_client req ≡ ok (sent encode answered)
      → get_deployment new_request do_request text_of unmarshal clients client_ctx c d.service
          d.environment
        ≡ ok d
  get_deployment_comes_back new_request do_request text_of unmarshal encode clients client_ctx c req
        t v p named set encodable short decoded plain_service plain_environment requested answer =
      let stored = stored_saved t v p set in
      subst
        (λ s. IsBridged s (
          get_deployment new_request do_request text_of unmarshal clients client_ctx c d.service
            d.environment))
        stored
        (get_deployment-IsBridged new_request do_request text_of unmarshal encode parse_rfc3339
          encodes (redis_storage client deployments events fuel) live saved d.service d.environment
          encodable named short
          (λ e self event chain q.
            subst
              (λ x.
                unmarshal (encode (deployment_response d.service x self event chain)) ≡ ok (some x))
              (ok_inj (sym stored ∙ q)) (decoded self event chain))
          clients client_ctx c req plain_service plain_environment requested answer)
