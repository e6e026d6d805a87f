-- ===== src/Storage/Redis/Lookups.antt =====
-- redis.go: what the reads by key return after a write, and after any writes.
use text.Mathlib.TextLemmas.{append_cancel_left}
use cdevents_otel_bridge.Prelude.{
  String, [], some, ◌≡◌, ◌≢◌, refl, sym, ◌∙◌, ap, ◌<>◌, ◌==◌, ◌&&◌, eq_iff, is_empty, arith,
  Bool-cases, Option-cases, inl, inr, if◌then◌else◌,
}
use cdevents_otel_bridge.Prelude.Int.{pos, ltb_ℤ}
use cdevents_otel_bridge.Errors.{ok}
use cdevents_otel_bridge.Text.Separators.{HasNo, has_prefix-append}
use cdevents_otel_bridge.Models.{Deployment}
use cdevents_otel_bridge.Cdevents.{StoredEvent}
use cdevents_otel_bridge.Storage.Memory.Lookups.{live}
use cdevents_otel_bridge.Storage.Redis.{
  set, Client, Codec, RedisStorage, redis_deployment_key, event_key_prefix, chain_key_prefix,
  save_deployment, save_event, event_commands, read_deployment, get_deployment, get_event, decoded,
}
use cdevents_otel_bridge.Storage.Redis.Server.{Server, IsReached, Encodes, after_all}
use cdevents_otel_bridge.Storage.Redis.Keys.{
  IsPlain, redis_deployment_key_inj, has_prefix-redis_deployment_key, deployment_ne_event,
  deployment_ne_chain, event_ne_chain,
}
use cdevents_otel_bridge.Storage.Redis.Invariant.{IsValid, text-set_other, members-set_other}
use cdevents_otel_bridge.Storage.Redis.Saving.{save_deployment_runs, save_event_runs}

-- The test of two keys of plain names is the test of the two pairs.
pub redis_deployment_key_test :
    (s t e f : String)
    → IsPlain s
    → IsPlain t
    → HasNo b'%' e
    → HasNo b'%' f
    → (redis_deployment_key s e == redis_deployment_key t f) ≡ (s == t && e == f)
redis_deployment_key_test s t e f h k x y = ground (
  arith,
  eq_iff (redis_deployment_key s e) (redis_deployment_key t f),
  eq_iff s t,
  eq_iff e f,
  redis_deployment_key_inj s t e f h k x y,
)

module _ {S : Type 0} (client : Client S) (server : Server client)
    (reached : IsReached client server) where
  -- A key without a set reads the same where its text is the same.
  get-same :
      (s s' : S) (key : String)
      → server.text s' key ≡ server.text s key
      → server.members s' key ≡ []
      → server.members s key ≡ []
      → client.get s' live key ≡ client.get s live key
  get-same s s' key p q q' = elim (Option-cases (server.text s key)) [
    | inl e ↦ server.get-missing s' key (p ∙ e) q ∙ sym (server.get-missing s key e q')
    | inr (t, e) ↦ server.get-text s' key t (p ∙ e) ∙ sym (server.get-text s key t e)
  ]

  -- Behind the first command of `SaveEvent`, only the set of the chain changes.
  module _ (r : RedisStorage S) (e : StoredEvent) (t j : String)
      (other : chain_key_prefix <> e.chain_id ≢ j) where
    written : S
    written = server.after r.server (set (event_key_prefix <> e.id) t r.ttl)

    text-event_commands :
        server.text (after_all server.after r.server (event_commands r.ttl e t)) j
        ≡ server.text (server.after r.server (set (event_key_prefix <> e.id) t r.ttl)) j
    unfolding event_commands
    text-event_commands = elim (Bool-cases (is_empty e.chain_id)) [
      | inl p ↦ rw p refl
      | inr p ↦ elim (Bool-cases (ltb_ℤ (pos 0) r.ttl)) [
        | inl q ↦ rw (p, q) (server.text-expire _ _ j r.ttl q ∙ server.text-s_add _ _ _ j)
        | inr q ↦ rw (p, q) (server.text-s_add _ _ _ j)
      ]
    ]

    members-event_commands :
        server.members (after_all server.after r.server (event_commands r.ttl e t)) j
        ≡ server.members (server.after r.server (set (event_key_prefix <> e.id) t r.ttl)) j
    unfolding event_commands
    members-event_commands = elim (Bool-cases (is_empty e.chain_id)) [
      | inl p ↦ rw p refl
      | inr p ↦ elim (Bool-cases (ltb_ℤ (pos 0) r.ttl)) [
        | inl q ↦
            rw (p, q)
              (server.members-expire _ _ j r.ttl q ∙ server.members-s_add_other _ _ _ j other)
        | inr q ↦ rw (p, q) (server.members-s_add_other _ _ _ j other)
      ]
    ]

  module _ (deployments : Codec Deployment) (events : Codec StoredEvent) where
    abbrev pub Valid : RedisStorage S → Type 0
    Valid r = IsValid client server deployments events r.server

    -- On a reached server whose keys hold what the backend writes, a saved deployment that is encoded
    -- and decoded back is what a lookup by the same key returns, and every other lookup returns what
    -- it returned before.
    pub get_deployment_saved :
        (r : RedisStorage S) (d : Deployment) (t service environment : String)
        → Valid r
        → Encodes deployments d t
        → get_deployment client deployments
            (save_deployment client deployments r live (some d)).1
            live
            service
            environment
          ≡ (if redis_deployment_key d.service d.environment
                == redis_deployment_key service environment
              then ok d
              else get_deployment client deployments r live service environment)
    unfolding get_deployment read_deployment decoded
    get_deployment_saved r d t service environment v p =
        let key = redis_deployment_key d.service d.environment in
        let j = redis_deployment_key service environment in
        let keyed = v.deployments_keyed j (has_prefix-redis_deployment_key service environment) in
        rw (save_deployment_runs client server reached deployments events r d t p.0)
          (elim (Bool-cases (key == j)) [
            | inl e ↦
                rw
                  (
                    e,
                    server.get-text _ j t (server.text-set r.server key t j r.ttl ∙ rw e refl),
                    p.1,
                  )
                  refl
            | inr e ↦
                rw
                  (
                    e,
                    get-same r.server _ j (server.text-set r.server key t j r.ttl ∙ rw e refl)
                        (server.members-set r.server key t j r.ttl ∙ rw e keyed.0) keyed.0,
                  )
                  refl
          ])

    pub get_deployment-save_event :
        (r : RedisStorage S) (e : StoredEvent) (t service environment : String)
        → Valid r
        → Encodes events e t
        → get_deployment client deployments
            (save_event client events r live (some e)).1
            live
            service
            environment
          ≡ get_deployment client deployments r live service environment
    unfolding get_deployment read_deployment
    get_deployment-save_event r e t service environment v p =
        let kind = has_prefix-redis_deployment_key service environment in
        let j = redis_deployment_key service environment in
        let keyed = v.deployments_keyed j kind in
        let other : chain_key_prefix <> e.chain_id ≢ j = λ same.
          deployment_ne_chain j _ kind (has_prefix-append chain_key_prefix e.chain_id) (sym same) in
        let written : event_key_prefix <> e.id ≢ j = λ same.
          deployment_ne_event j _ kind (has_prefix-append event_key_prefix e.id) (sym same) in
        rw (save_event_runs client server reached deployments events r e t p.1 v p.0) (
          ap
            (decoded "failed to get deployment: " "failed to unmarshal deployment: "
              deployments.unmarshal)
            (get-same r.server _ j
              (text-event_commands r e t j other
                ∙ text-set_other client server r.server _ t r.ttl j written)
              (members-event_commands r e t j other
                ∙ members-set_other client server r.server _ t r.ttl j written
                ∙ keyed.0)
              keyed.0))

    pub get_event-save_event :
        (r : RedisStorage S) (e : StoredEvent) (t id : String)
        → Valid r
        → Encodes events e t
        → get_event client events (save_event client events r live (some e)).1 live id
          ≡ (if e.id == id then ok e else get_event client events r live id)
    unfolding get_event decoded
    get_event-save_event r e t id v p =
        let kind = has_prefix-append event_key_prefix id in
        let j = event_key_prefix <> id in
        let keyed = v.events_keyed j kind in
        let other : chain_key_prefix <> e.chain_id ≢ j = λ same.
          event_ne_chain j _ kind (has_prefix-append chain_key_prefix e.chain_id) (sym same) in
        let text_j = text-event_commands r e t j other in
        let members_j = members-event_commands r e t j other in
        rw (save_event_runs client server reached deployments events r e t p.1 v p.0)
          (elim (Bool-cases (e.id == id)) [
            | inl h ↦
                let same : event_key_prefix <> e.id ≡ j =
                  ap (λ x. event_key_prefix <> x) ((eq_iff e.id id).0 h) in
                rw
                  (
                    h,
                    server.get-text _ j t
                        (text_j ∙ server.text-set _ _ t j r.ttl ∙ rw ((eq_iff _ _).1 same) refl),
                    p.1,
                  )
                  refl
            | inr h ↦
                let written : event_key_prefix <> e.id ≢ j = λ same.
                  ground
                    (arith, eq_iff e.id id, append_cancel_left event_key_prefix e.id id same) in
                rw
                  (
                    h,
                    get-same r.server _ j
                        (text_j ∙ text-set_other client server r.server _ t r.ttl j written)
                        (members_j
                          ∙ members-set_other client server r.server _ t r.ttl j written
                          ∙ keyed.0)
                        keyed.0,
                  )
                  refl
          ])

    pub get_event-save_deployment :
        (r : RedisStorage S) (d : Deployment) (t id : String)
        → Valid r
        → Encodes deployments d t
        → get_event client events (save_deployment client deployments r live (some d)).1 live id
          ≡ get_event client events r live id
    unfolding get_event
    get_event-save_deployment r d t id v p =
        let j = event_key_prefix <> id in
        let kind = has_prefix-append event_key_prefix id in
        let keyed = v.events_keyed j kind in
        let key = redis_deployment_key d.service d.environment in
        let other : key ≢ j =
          deployment_ne_event key j (has_prefix-redis_deployment_key d.service d.environment)
            kind in
        rw (save_deployment_runs client server reached deployments events r d t p.0) (
          ap (decoded "failed to get event: " "failed to unmarshal event: " events.unmarshal) (
            get-same r.server _ j (text-set_other client server r.server key t r.ttl j other)
              (members-set_other client server r.server key t r.ttl j other ∙ keyed.0) keyed.0))
