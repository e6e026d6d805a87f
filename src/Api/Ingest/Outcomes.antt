-- ===== src/Api/Ingest/Outcomes.antt =====
-- handlers.go: what `HandlePostEvent` has done when it answers.
use mathlib.Core.Path.{subst}
use cdevents_otel_bridge.Prelude.{
  ◌==◌, ℕ, String, List, [], ◌∷◌, ◌≡◌, ◌≢◌, refl, sym, ap, ◌∙◌, ◌⊎◌, inl, inr, Option, none, some,
  Bool, false, arith, if◌then◌else◌, Bool-cases, Option-cases,
}
use cdevents_otel_bridge.Errors.{Result, ok, Result-cases}
use cdevents_otel_bridge.Time.{Time}
use cdevents_otel_bridge.Cdevents.{CdEvent}
use cdevents_otel_bridge.Cdevents.ShortType.{short_type, is_deployment}
use cdevents_otel_bridge.Cdevents.Validator.{validate}
use cdevents_otel_bridge.Cdevents.Parser.{to_deployment}
use cdevents_otel_bridge.Cdevents.Parser.Summary.{parse, to_stored_event}
use cdevents_otel_bridge.Storage.{Context, Storage}
use cdevents_otel_bridge.Api.{
  event_received, event_rejected, observe_processing, Body, respond_json, respond_error,
}
use cdevents_otel_bridge.Api.Ingest.{
  RequestBody, BodyRead, bytes, too_large, unreadable, read_body, Outcome, ingest_event,
  ingest_deployment, handle_event, handle_post_event,
}

respond_error-status :
    (encodes : Body → Bool) (status : ℕ) (err_type text : String)
    → ((respond_error encodes status err_type text).status ≡ status)
      ⊎ ((respond_error encodes status err_type text).status ≡ 500)
unfolding respond_error respond_json
respond_error-status encodes status err_type text = ground arith

data IsBodyRead (r : BodyRead) : Type 0 where
  is_read : (read : List ℕ) → r ≡ bytes read → IsBodyRead r
  too_long : r ≡ too_large → IsBodyRead r
  unread : r ≡ unreadable → IsBodyRead r

BodyRead-cases : (r : BodyRead) → IsBodyRead r
BodyRead-cases (bytes read) = is_read read refl
BodyRead-cases too_large = too_long refl
BodyRead-cases unreadable = unread refl

module _ {S : Type 0} (unmarshal : List ℕ → Result CdEvent) (parse_rfc3339 : String → Option Time)
    (format_rfc3339 : Time → String) (encodes : Body → Bool) (storage : Storage S) (ctx : Context)
    (elapsed : ℕ) where
  abbrev post : S → RequestBody → Outcome S
  post = handle_post_event unmarshal parse_rfc3339 format_rfc3339 encodes storage ctx elapsed

  abbrev handle : S → CdEvent → Outcome S
  handle = handle_event unmarshal parse_rfc3339 format_rfc3339 encodes storage ctx elapsed

  abbrev ingest : S → CdEvent → Outcome S
  ingest = ingest_event unmarshal parse_rfc3339 format_rfc3339 encodes storage ctx elapsed

  abbrev save : S → CdEvent → Result (Unit {0}) × S
  save s event = storage.save_event s ctx (some (to_stored_event parse_rfc3339 event))

  abbrev save_first : S → CdEvent → Result (Unit {0}) × S
  save_first s event = storage.save_deployment s ctx (some (to_deployment event))

  -- The deployment of the event is saved, if it is a deployment event, and leaves a state.
  abbrev pub SavesDeployment : S → CdEvent → S → Type 0
  SavesDeployment s event s' =
      if is_deployment event
      then storage.save_deployment s ctx (some (to_deployment event)) ≡ (ok tt, s')
      else s' ≡ s

  -- What an accepted event has gone through.
  pub record IsAccepted (s : S) (event : CdEvent) (out : Outcome S) : Type 0 where
    pub valid : validate (some event) ≡ none
    pub between : S
    pub deployment_saved : SavesDeployment s event between
    pub event_saved :
        storage.save_event between ctx (some (to_stored_event parse_rfc3339 event))
        ≡ (ok tt, out.state)
    pub metrics :
        out.metrics
        ≡ event_received (short_type event.context.type) ∷ observe_processing elapsed ∷ []

  not_created :
      (status : ℕ) (err_type text : String)
      → status ≢ 201
      → (respond_error encodes status err_type text).status ≢ 201
  not_created status err_type text n h = elim (respond_error-status encodes status err_type text) [
    | inl e ↦ n (sym e ∙ h)
    | inr e ↦ absurd (omega (arith, e, h))
  ]

  ingest_event-created :
      (s : S) (event : CdEvent)
      → (ingest s event).response.status ≡ 201
      → (storage.save_event s ctx (some (to_stored_event parse_rfc3339 event))
          ≡ (ok tt, (ingest s event).state))
        × ((ingest s event).metrics
            ≡ event_received (short_type event.context.type) ∷ observe_processing elapsed ∷ [])
  unfolding ingest_event
  ingest_event-created s event h = elim (Result-cases (save s event).0) [
    | inl (u, p) ↦ rw (p, ingest_event) (refl, refl)
    | inr (e, p) ↦ absurd (not_created 500 _ _ (omega arith) (rw (p, ingest_event) at h))
  ]

  -- A request that comes down to the ingestion of the event in some state.
  accepted_from :
      (s between : S) (event : CdEvent) (out : Outcome S)
      → validate (some event) ≡ none
      → SavesDeployment s event between
      → out ≡ ingest between event
      → out.response.status ≡ 201
      → IsAccepted s event out
  accepted_from s between event out v d e h =
      let (saved, metrics) =
        ingest_event-created between event (ap (λ o. o.response.status) (sym e) ∙ h) in
      record {
        valid = v;
        between = between;
        deployment_saved = d;
        event_saved = saved ∙ ap (λ o. (ok tt, o.state)) (sym e);
        metrics = ap (λ o. o.metrics) e ∙ metrics;
      }

  handle_event-IsAccepted :
      (s : S) (event : CdEvent)
      → (handle s event).response.status ≡ 201
      → IsAccepted s event (handle s event)
  unfolding handle_event ingest_deployment
  handle_event-IsAccepted s event h = elim (Option-cases (validate (some event))) [
    | inr (e, v) ↦ absurd (not_created 400 _ _ (omega arith) (rw (v, handle_event) at h))
    | inl v ↦ elim (Bool-cases (is_deployment event)) [
      | inr d ↦
          accepted_from s s event (handle s event) v (rw d refl) (rw (v, handle_event) (rw d refl))
            h
      | inl d ↦ elim (Result-cases (save_first s event).0) [
        | inl (u, p) ↦
            accepted_from s (save_first s event).1 event (handle s event) v
              (rw d (λ i. (p i, (save_first s event).1)))
              (rw (v, handle_event) (rw d (rw (p, ingest_deployment) refl))) h
        | inr (e, p) ↦ absurd (
            not_created 500 _ _ (omega arith)
              (rw (p, ingest_deployment) at (rw d at (rw (v, handle_event) at h))))
      ]
    ]
  ]

  -- A 201 says: the body was read and parsed, the event passed `Validate`, the storage saved its
  -- deployment, if it is a deployment event, and then the event, both without an error, and the
  -- metrics counted the event once as received and not as rejected.
  pub handle_post_event-IsAccepted :
      (s : S) (body : RequestBody)
      → (post s body).response.status ≡ 201
      → (read : List ℕ) × (event : CdEvent) × (read_body body ≡ bytes read)
        × (parse unmarshal read ≡ ok event)
        × IsAccepted s event (post s body)
  unfolding handle_post_event
  handle_post_event-IsAccepted s body h = elim (BodyRead-cases (read_body body)) [
    | unread e ↦ absurd (not_created 400 _ _ (omega arith) (rw (e, handle_post_event) at h))
    | too_long e ↦ absurd (not_created 413 _ _ (omega arith) (rw (e, handle_post_event) at h))
    | is_read read e ↦ elim (Result-cases (parse unmarshal read)) [
      | inr (f, p) ↦ absurd (
          not_created 400 _ _ (omega arith)
            (rw (p, handle_post_event) at (rw (e, handle_post_event) at h)))
      | inl (event, p) ↦
          let same : post s body ≡ handle s event =
            rw (e, handle_post_event) (rw (p, handle_post_event) refl) in
          (
            read,
            event,
            e,
            p,
            subst (IsAccepted s event) (sym same)
                (handle_event-IsAccepted s event (ap (λ o. o.response.status) (sym same) ∙ h)),
          )
    ]
  ]

  -- A request is counted once: as received, or as rejected. If it is rejected for another reason
  -- than the storage, the storage is as it was.
  pub data IsCounted (s : S) (out : Outcome S) : Type 0 where
    received :
        (kind : String)
        → out.metrics ≡ event_received kind ∷ observe_processing elapsed ∷ []
        → IsCounted s out
    not_stored : out.metrics ≡ event_rejected "storage" ∷ [] → IsCounted s out
    refused :
        (reason : String)
        → (reason == "storage") ≡ false
        → out.metrics ≡ event_rejected reason ∷ []
        → out.state ≡ s
        → out.response.status ≢ 201
        → IsCounted s out

  ingest_event-IsCounted : (s between : S) (event : CdEvent) → IsCounted s (ingest between event)
  unfolding ingest_event
  ingest_event-IsCounted s between event = elim (Result-cases (save between event).0) [
    | inl (u, p) ↦ rw (p, ingest_event) (received (short_type event.context.type) refl)
    | inr (e, p) ↦ rw (p, ingest_event) (not_stored refl)
  ]

  handle_event-IsCounted : (s : S) (event : CdEvent) → IsCounted s (handle s event)
  unfolding handle_event ingest_deployment
  handle_event-IsCounted s event = elim (Option-cases (validate (some event))) [
    | inr (e, v) ↦
        rw (v, handle_event)
          (refused "validation" refl refl refl (not_created 400 _ _ (omega arith)))
    | inl v ↦ elim (Bool-cases (is_deployment event)) [
      | inr d ↦ rw (v, handle_event) (rw d (ingest_event-IsCounted s s event))
      | inl d ↦ elim (Result-cases (save_first s event).0) [
        | inl (u, p) ↦
            rw (v, handle_event)
              (rw d
                (rw (p, ingest_deployment) (ingest_event-IsCounted s (save_first s event).1 event)))
        | inr (e, p) ↦ rw (v, handle_event) (rw d (rw (p, ingest_deployment) (not_stored refl)))
      ]
    ]
  ]

  -- Each request is counted once: as an event received, or as one rejected. If it is rejected for
  -- another reason than the storage, it leaves the storage as it was and does not answer 201.
  pub handle_post_event-IsCounted : (s : S) (body : RequestBody) → IsCounted s (post s body)
  unfolding handle_post_event
  handle_post_event-IsCounted s body = elim (BodyRead-cases (read_body body)) [
    | unread e ↦
        rw (e, handle_post_event)
          (refused "unreadable_body" refl refl refl (not_created 400 _ _ (omega arith)))
    | too_long e ↦
        rw (e, handle_post_event)
          (refused "payload_too_large" refl refl refl (not_created 413 _ _ (omega arith)))
    | is_read read e ↦ elim (Result-cases (parse unmarshal read)) [
      | inr (f, p) ↦
          rw (e, handle_post_event)
            (rw (p, handle_post_event)
              (refused "parse" refl refl refl (not_created 400 _ _ (omega arith))))
      | inl (event, p) ↦
          rw (e, handle_post_event) (rw (p, handle_post_event) (handle_event-IsCounted s event))
    ]
  ]
