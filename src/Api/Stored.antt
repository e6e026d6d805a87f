-- ===== src/Api/Stored.antt =====
-- handlers.go over the in-memory storage: what the read endpoints answer once `HandlePostEvent` has
-- accepted an event.
use mathlib.Core.Path.{subst}
use cdevents_otel_bridge.Errors.{err_inj, ok_inj, ok_not_err, Error, Result, ok, err, is_not_found}
use cdevents_otel_bridge.Prelude.{
  ℕ, String, List, [], ◌≡◌, refl, sym, ap, ◌∙◌, Option, some, Bool, true, false, ◌<>◌, ◌==◌,
  eq_refl, is_empty, Bool-cases, inl, inr, Option-cases, keep,
}
use cdevents_otel_bridge.Time.{Time}
use cdevents_otel_bridge.Dict
use cdevents_otel_bridge.Dict.{MapRange}
use cdevents_otel_bridge.Dict.Laws.{get-put}
use cdevents_otel_bridge.Models.{Deployment, EventChain}
use cdevents_otel_bridge.Cdevents.{CdEvent, StoredEvent}
use cdevents_otel_bridge.Cdevents.ShortType.{is_deployment}
use cdevents_otel_bridge.Cdevents.Validator.Laws.{validate_iff}
use cdevents_otel_bridge.Cdevents.Parser.{to_deployment}
use cdevents_otel_bridge.Cdevents.Parser.Conversions.{to_deployment-service}
use cdevents_otel_bridge.Cdevents.Parser.Summary.{parse, to_stored_event}
use cdevents_otel_bridge.Storage.{sort_events_newest_first}
use cdevents_otel_bridge.Storage.Memory.{
  MemoryStorage, memory_storage, save_deployment, get_deployment, save_event, get_event,
  get_events_by_chain,
}
use cdevents_otel_bridge.Storage.Memory.Lookups.{live, get_event-save_event}
use cdevents_otel_bridge.Correlator.Chain.{build_chain}
use cdevents_otel_bridge.Correlator.Chain.Total.{build_chain_succeeds}
use cdevents_otel_bridge.Api.{
  Body, event_response, deployment_response, chain_response, respond_json, status_ok,
}
use cdevents_otel_bridge.Api.Ingest.{RequestBody, bytes, read_body, handle_post_event}
use cdevents_otel_bridge.Api.Ingest.Outcomes.{IsAccepted, handle_post_event-IsAccepted}
use cdevents_otel_bridge.Api.Queries.{handle_get_deployment, handle_get_event, handle_get_chain}

get_event-live_fails :
    (m : MemoryStorage) (id : String) (cause : Error)
    → get_event m live id ≡ err cause
    → is_not_found cause ≡ true
unfolding get_event is_not_found
get_event-live_fails m id cause h = elim (Option-cases (Dict.get m.events id)) [
  | inl n ↦ rw (sym (err_inj (rw n at h))) refl
  | inr (e, n) ↦ absurd (ok_not_err (rw n at h))
]

get_events_by_chain-live :
    (range : MapRange StoredEvent) (m : MemoryStorage) (chain_id : String)
    → (found : List StoredEvent) × (get_events_by_chain range m live chain_id ≡ ok found)
unfolding get_events_by_chain
get_events_by_chain-live range m chain_id = elim (Bool-cases (is_empty chain_id)) [
  | inl e ↦ ([], rw e refl)
  | inr e ↦ (
    sort_events_newest_first
        (keep (λ x. x.chain_id == chain_id) (range.visit (Dict.values m.events))),
    rw e refl,
  )
]

module _ (unmarshal : List ℕ → Result CdEvent) (parse_rfc3339 : String → Option Time)
    (format_rfc3339 : Time → String) (encodes : Body → Bool) (deployments : MapRange Deployment)
    (events : MapRange StoredEvent) (elapsed : ℕ) (m : MemoryStorage) (body : RequestBody) where
  -- the storage once the request is handled
  abbrev after_post : MemoryStorage
  after_post =
      (handle_post_event unmarshal parse_rfc3339 format_rfc3339 encodes
        (memory_storage deployments events) live elapsed m body).state

  abbrev post_status : ℕ
  post_status =
      (handle_post_event unmarshal parse_rfc3339 format_rfc3339 encodes
        (memory_storage deployments events) live elapsed m body).response.status

  -- The request posted an event.
  abbrev pub Posted : CdEvent → Type 0
  Posted event = (read : List ℕ) × (read_body body ≡ bytes read) × (parse unmarshal read ≡ ok event)

  module _ (event : CdEvent) (posted : Posted event) (created : post_status ≡ 201) where
    accepted :
        IsAccepted unmarshal parse_rfc3339 format_rfc3339 encodes
          (memory_storage deployments events)
          live
          elapsed
          m
          event
          (handle_post_event unmarshal parse_rfc3339 format_rfc3339 encodes
            (memory_storage deployments events)
            live
            elapsed
            m
            body)
    accepted =
        let (other, found, r, p, a) =
          handle_post_event-IsAccepted unmarshal parse_rfc3339 format_rfc3339 encodes
            (memory_storage deployments events) live elapsed m body created in
        let (read, q, parsed) = posted in
        let same : found ≡ event =
          ok_inj (sym p ∙ ap (parse unmarshal) (bytes_inj (sym r ∙ q)) ∙ parsed) in
        subst
          (λ e.
            IsAccepted unmarshal parse_rfc3339 format_rfc3339 encodes
              (memory_storage deployments events) live elapsed m e
              (handle_post_event unmarshal parse_rfc3339 format_rfc3339 encodes
                (memory_storage deployments events) live elapsed m body))
          same a
      where
        bytes_inj : {a b : List ℕ} → bytes a ≡ bytes b → a ≡ b
        bytes_inj e = cc

    abbrev stored_event : StoredEvent
    stored_event = to_stored_event parse_rfc3339 event

    saved : (save_event accepted.between live (some stored_event)).1 ≡ after_post
    saved = ap (λ r. r.1) accepted.event_saved

    stored : get_event after_post live event.context.id ≡ ok stored_event
    unfolding to_stored_event
    stored =
        ap (λ s. get_event s live event.context.id) (sym saved)
        ∙ get_event-save_event accepted.between stored_event event.context.id
        ∙ rw eq_refl refl

    named : is_empty event.context.id ≡ false
    named = ((validate_iff event).0 accepted.valid).id

    -- Over the in-memory storage, under a context that is not done: where an event was accepted with a
    -- 201, `GET /events/{id}` for its id then responds with its stored form and the status 200, which
    -- is sent if it can be encoded.
    pub handle_get_event-post :
        handle_get_event parse_rfc3339 encodes
          (memory_storage deployments events)
          live
          after_post
          event.context.id
        ≡ respond_json encodes status_ok (event_response stored_event)
    unfolding handle_get_event
    handle_get_event-post = rw (named, handle_get_event) (rw (stored, handle_get_event) refl)

    deployment_stored :
        is_deployment event ≡ true
        → get_deployment after_post live
            (to_deployment event).service
            (to_deployment event).environment
          ≡ ok (to_deployment event)
    unfolding get_deployment save_event save_deployment
    deployment_stored d =
        let before : save_deployment m live (some (to_deployment event))
            ≡ (ok tt, accepted.between) =
          rw d at accepted.deployment_saved in
        ap
          (λ s.
            get_deployment s live (to_deployment event).service (to_deployment event).environment)
          (sym saved)
        ∙ ap
            (λ r.
              get_deployment r.1 live (to_deployment event).service
                (to_deployment event).environment)
            (sym before)
        ∙ rw get-put (rw eq_refl refl)

    -- Over the in-memory storage, under a context that is not done: where a deployment event that names
    -- an environment was accepted with a 201, `GET /deployments/{service}` for its service and its
    -- environment then responds with its deployment and the status 200, which is sent if it can be
    -- encoded.
    pub handle_get_deployment-post :
        is_deployment event ≡ true
        → is_empty (to_deployment event).environment ≡ false
        → handle_get_deployment parse_rfc3339 encodes
            (memory_storage deployments events)
            live
            after_post
            (to_deployment event).service
            (to_deployment event).environment
          ≡ respond_json encodes status_ok (
              deployment_response
                (to_deployment event).service
                (to_deployment event)
                ("/api/v1/deployments/"
                  <> (to_deployment event).service
                  <> "?environment="
                  <> (to_deployment event).environment)
                ("/api/v1/events/" <> event.context.id)
                ("/api/v1/chain/" <> event.context.id))
    unfolding handle_get_deployment to_deployment
    handle_get_deployment-post d n =
        rw (to_deployment-service event accepted.valid, handle_get_deployment)
          (rw (n, handle_get_deployment) (rw (deployment_stored d, handle_get_deployment) refl))

    -- Over the in-memory storage, under a context that is not done: where an event was accepted with a
    -- 201, `BuildChain` returns a chain for its id, and `GET /chain/{id}` responds with that chain and
    -- the status 200, which is sent if it can be encoded.
    pub handle_get_chain-post :
        (range : MapRange StoredEvent)
        → (chain : EventChain) × (build_chain
              (get_event after_post live)
              (get_events_by_chain events after_post live)
              range
              event.context.id
            ≡ ok chain)
          × (handle_get_chain parse_rfc3339 encodes
                (memory_storage deployments events)
                live
                after_post
                (build_chain
                  (get_event after_post live)
                  (get_events_by_chain events after_post live)
                  range)
                event.context.id
              ≡ respond_json encodes status_ok (chain_response chain))
    unfolding handle_get_chain
    handle_get_chain-post range =
        let (chain, e) =
          build_chain_succeeds (get_event after_post live)
            (get_events_by_chain events after_post live) range event.context.id stored_event
            (get_event-live_fails after_post) (get_events_by_chain-live events after_post) stored in
        (chain, e, rw (named, handle_get_chain) (rw (e, handle_get_chain) refl))
