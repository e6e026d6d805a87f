-- ===== src/Otelbridge/Client/Bridge.antt =====
-- client.go against handlers.go: what `GetDeployment` returns where the bridge answers.
use mathlib.Core.Path.{subst}
use cdevents_otel_bridge.Prelude.{
  ℕ, ◌<◌, String, List, Bool, true, false, Option, none, some, ◌≡◌, ◌≢◌, refl, sym, ap, ◌∙◌, ◌⊎◌,
  inl, inr, ◌<>◌, is_empty, length, ltb, eqb, eq_iff, arith, Bool-cases, if◌then◌else◌,
}
use cdevents_otel_bridge.Errors.{
  Error, Result, ok, err, plain, resolver_not_found, is_not_found, is_resolver_not_found,
  Result-cases,
}
use cdevents_otel_bridge.Prelude.Int.{pos}
use cdevents_otel_bridge.Strconv.{decimal}
use cdevents_otel_bridge.Text.{trim_space}
use cdevents_otel_bridge.Time.{Time}
use cdevents_otel_bridge.Models.{Deployment}
use cdevents_otel_bridge.Storage.{Context, Storage}
use cdevents_otel_bridge.Api.{
  Body, Response, deployment_response, error_response, respond_json, respond_error, status_ok,
  status_not_found, status_internal_server_error,
}
use cdevents_otel_bridge.Api.Queries.{handle_get_deployment, stored_deployment, not_found_message}
use cdevents_otel_bridge.Url.Laws.{IsUnreserved}
use cdevents_otel_bridge.Otelbridge.Client.Requests.{address, endpoint-address}
use cdevents_otel_bridge.Otelbridge.Client.{
  Client, HttpClients, HttpResponse, get_deployment, read_answer, read_response, decode_payload,
  endpoint, max_response_bytes,
}

-- What the client makes of what the bridge's storage returned.
abbrev pub IsBridged : Result Deployment → Result Deployment → Type 0
IsBridged (ok d) result = result ≡ ok d
IsBridged (err e) result =
    ((is_not_found e ≡ true) × (result ≡ err resolver_not_found))
    ⊎ ((is_not_found e ≡ false)
        × ((f : Error) × (result ≡ err f) × (is_resolver_not_found f ≡ false)))

-- A response of the bridge, as it is sent.
abbrev pub sent : (Body → List ℕ) → Response → HttpResponse
sent encode r = record { status_code = r.status; bytes = encode r.body; fails = none }

module _ {Request : Type 0} (new_request : Context → String → Result Request)
    (do_request : HttpClients → ℕ → Request → Result HttpResponse) (text_of : List ℕ → String)
    (unmarshal : List ℕ → Result (Option Deployment)) (encode : Body → List ℕ) where
  abbrev answer : HttpResponse → Result Deployment
  answer = read_answer new_request do_request text_of unmarshal

  read_whole :
      (r : Response)
      → length (encode r.body) < max_response_bytes
      → read_response (sent encode r) ≡ ok (encode r.body)
  unfolding read_response
  read_whole r h =
      let within : ltb (length (encode r.body)) max_response_bytes ≡ true = ground (arith, h) in
      rw within refl

  -- What is made of a body that could be read.
  abbrev read_as : ℕ → List ℕ → Result Deployment
  read_as status body =
      if eqb status 200
      then decode_payload new_request do_request text_of unmarshal body
      else if eqb status 404
      then err resolver_not_found
      else err (
          plain (
            "otelbridge: bridge returned status "
            <> decimal (pos status)
            <> ": "
            <> trim_space (text_of body)))

  answer_read :
      (r : Response)
      → length (encode r.body) < max_response_bytes
      → answer (sent encode r) ≡ read_as r.status (encode r.body)
  unfolding read_answer
  answer_read r h = rw (answer, read_answer, read_whole r h) refl

  read_as-ok :
      (body : List ℕ) (d : Deployment)
      → unmarshal body ≡ ok (some d)
      → read_as status_ok body ≡ ok d
  unfolding decode_payload
  read_as-ok body d p = rw (read_as, decode_payload, p) refl

  read_as-error :
      (body : List ℕ)
      → (f : Error) × (read_as status_internal_server_error body ≡ err f)
        × (is_resolver_not_found f ≡ false)
  unfolding is_resolver_not_found
  read_as-error body = (_, refl, refl)

  module _ {S : Type 0} (parse_rfc3339 : String → Option Time) (encodes : Body → Bool)
      (storage : Storage S) (ctx : Context) (s : S) (service environment : String) where
    abbrev handled : Response
    handled = handle_get_deployment parse_rfc3339 encodes storage ctx s service environment

    abbrev stored : Result Deployment
    stored = stored_deployment parse_rfc3339 encodes storage ctx s service environment

    module _ (encodable : (body : Body) → encodes body ≡ true) (named : service ≢ "") where
      set : is_empty service ≡ false
      set = ground (arith, eq_iff service "", named)

      handled-ok :
          (d : Deployment)
          → stored ≡ ok d
          → (self : String) × (event : String) × (chain : String) × (handled ≡ record {
            status = status_ok;
            body = deployment_response service d self event chain;
          })
      unfolding handle_get_deployment respond_json
      handled-ok d e = (
        "/api/v1/deployments/" <> service <> "?environment=" <> d.environment,
        "/api/v1/events/" <> d.event_id,
        "/api/v1/chain/" <> d.event_id,
        rw (set, handle_get_deployment)
            (rw (e, handle_get_deployment)
              (rw
                (
                  encodable (
                      deployment_response service d
                        ("/api/v1/deployments/" <> service <> "?environment=" <> d.environment)
                        ("/api/v1/events/" <> d.event_id) ("/api/v1/chain/" <> d.event_id)),
                  respond_json,
                )
                refl)),
      )

      handled-not_found :
          (e : Error)
          → stored ≡ err e
          → is_not_found e ≡ true
          → (body : Body) × (handled ≡ record { status = status_not_found; body = body })
      unfolding handle_get_deployment respond_json respond_error
      handled-not_found e p q =
          let message = not_found_message parse_rfc3339 encodes storage ctx s service environment in
          (
            error_response "not_found" message,
            rw (set, handle_get_deployment)
                (rw (p, handle_get_deployment)
                  (rw (q, handle_get_deployment)
                    (rw (encodable (error_response "not_found" message), respond_json) refl))),
          )

      handled-error :
          (e : Error)
          → stored ≡ err e
          → is_not_found e ≡ false
          → (body : Body) × (handled
              ≡ record { status = status_internal_server_error; body = body })
      unfolding handle_get_deployment respond_json respond_error
      handled-error e p q = (
        error_response "storage_error" "Failed to retrieve deployment",
        rw (set, handle_get_deployment)
            (rw (p, handle_get_deployment)
              (rw (q, handle_get_deployment)
                (rw
                  (
                    encodable (error_response "storage_error" "Failed to retrieve deployment"),
                    respond_json,
                  )
                  refl))),
      )

      module _ (short : length (encode handled.body) < max_response_bytes)
          (decoded : (d : Deployment) (self event chain : String)
            → stored ≡ ok d
            → unmarshal (encode (deployment_response service d self event chain))
              ≡ ok (some d)) where
        answer_read_as :
            (r : Response)
            → handled ≡ r
            → answer (sent encode handled) ≡ read_as r.status (encode r.body)
        answer_read_as r e =
            answer_read handled short ∙ ap (λ (x : Response). read_as x.status (encode x.body)) e

        answer-IsBridged : IsBridged stored (answer (sent encode handled))
        answer-IsBridged = elim (Result-cases stored) [
          | inl (d, e) ↦
              let (self, event, chain, p) = handled-ok d e in
              subst (λ r. IsBridged r (answer (sent encode handled))) (sym e)
                (answer_read_as _ p ∙ read_as-ok _ d (decoded d self event chain e))
          | inr (cause, e) ↦
              subst (λ r. IsBridged r (answer (sent encode handled))) (sym e)
                (elim (Bool-cases (is_not_found cause)) [
                  | inl q ↦
                      let (body, p) = handled-not_found cause e q in inl (q, answer_read_as _ p)
                  | inr q ↦
                      let (body, p) = handled-error cause e q in
                      let (f, g, h) = read_as-error (encode body) in
                      inr (q, (f, answer_read_as _ p ∙ g, h))
                ])
        ]

        -- Where the bridge answers a request for the URL below its base that names the service and
        -- the environment as they are, with the response of `GET /deployments/{service}` for both,
        -- and that comes back whole, `GetDeployment` of the client returns the deployment that the
        -- bridge's storage returned for them, the client's `ErrNotFound` where that was the
        -- storage's, and another error where it was another. The service is named, and both names
        -- are made of letters, digits, hyphens, dots, underscores and tildes. What the bridge sends
        -- can be encoded, is shorter than the limit and is decoded to what it was.
        pub get_deployment-IsBridged :
            (clients : HttpClients) (client_ctx : Context) (c : Client) (req : Request)
            → IsUnreserved service
            → IsUnreserved environment
            → new_request client_ctx (address c.base_url service environment) ≡ ok req
            → do_request clients c.http_client req ≡ ok (sent encode handled)
            → IsBridged stored (
                get_deployment new_request do_request text_of unmarshal clients client_ctx c service
                  environment)
        unfolding get_deployment
        get_deployment-IsBridged clients client_ctx c req plain_service plain_environment p q =
            let requested : new_request client_ctx (endpoint c service environment) ≡ ok req =
              ap (new_request client_ctx)
                (endpoint-address c service environment plain_service plain_environment)
              ∙ p in
            let reached : get_deployment new_request do_request text_of unmarshal clients client_ctx
                  c service environment
                ≡ answer (sent encode handled) =
              rw (set, get_deployment)
                (rw (requested, get_deployment) (rw (q, get_deployment) refl)) in
            subst (IsBridged stored) (sym reached) answer-IsBridged
