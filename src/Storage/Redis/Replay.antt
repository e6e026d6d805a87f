-- ===== src/Storage/Redis/Replay.antt =====
-- redis.go and memory.go: what the reads by key return after any writes, on either backend.
use cdevents_otel_bridge.Prelude.{
  String, List, [], ◌∷◌, some, ◌≡◌, refl, sym, ◌∙◌, ap, ◌<>◌, eq_iff, All,
}
use cdevents_otel_bridge.Errors.{ok}
use cdevents_otel_bridge.Text.Separators.{HasNo}
use cdevents_otel_bridge.Models.{Deployment}
use cdevents_otel_bridge.Cdevents.{StoredEvent}
use cdevents_otel_bridge.Storage.Memory.{new_memory_storage}
use cdevents_otel_bridge.Storage.Memory
use cdevents_otel_bridge.Storage.Memory.Keys.{HasNoNul}
use cdevents_otel_bridge.Storage.Memory.Lookups
use cdevents_otel_bridge.Storage.Memory.Lookups.{
  live, Write, deployment, event, last_deployment, last_event, NamesNoNul, get_deployment_refines,
  get_event_refines,
}
use cdevents_otel_bridge.Storage.Redis.{
  Client, Codec, RedisStorage, save_deployment, save_event, get_deployment, get_event,
  redis_deployment_key, read_deployment, decoded, event_key_prefix,
}
use cdevents_otel_bridge.Storage.Redis.Server.{Server, IsReached, Encodes}
use cdevents_otel_bridge.Storage.Redis.Keys.{IsPlain, redis_deployment_key_collision}
use cdevents_otel_bridge.Storage.Redis.Invariant.{
  IsValid, IsNew, new-IsValid, set_deployment-IsValid,
}
use cdevents_otel_bridge.Storage.Redis.Saving.{
  save_deployment_runs, save_event_runs, event_commands-IsValid,
}
use cdevents_otel_bridge.Storage.Redis.Lookups.{
  get_deployment_saved, get_deployment-save_event, get_event-save_event, get_event-save_deployment,
  redis_deployment_key_test,
}

-- A write whose record can be encoded.
abbrev pub IsEncoded : Codec Deployment → Codec StoredEvent → Write → Type 0
IsEncoded deployments events (deployment d) = (t : String) × (Encodes deployments d t)
IsEncoded deployments events (event e) = (t : String) × (Encodes events e t)

-- A write whose deployment has a key of its own.
abbrev pub NamesPlain : Write → Type 0
NamesPlain (deployment d) = IsPlain d.service × HasNo b'%' d.environment
NamesPlain (event e) = Unit

module _ {S : Type 0} (client : Client S) (deployments : Codec Deployment)
    (events : Codec StoredEvent) where
  unfoldable pub apply : RedisStorage S → Write → RedisStorage S
  apply r (deployment d) = (save_deployment client deployments r live (some d)).1
  apply r (event e) = (save_event client events r live (some e)).1

  unfoldable pub replay : RedisStorage S → List Write → RedisStorage S
  unfolding apply
  replay r [] = r
  replay r (w ∷ ws) = replay (apply r w) ws

  module _ (server : Server client) (reached : IsReached client server) where
    -- Every write on a reached server of a record that can be encoded and decoded back keeps the
    -- server valid: a key of a deployment or of an event holds nothing but a record that stands
    -- under this key, and no key of a chain holds a text.
    pub apply-IsValid :
        (r : RedisStorage S) (w : Write)
        → IsEncoded deployments events w
        → IsValid client server deployments events r.server
        → IsValid client server deployments events (apply r w).server
    unfolding apply
    apply-IsValid r (deployment d) (t, p) v =
        rw (apply, save_deployment_runs client server reached deployments events r d t p.0)
          (set_deployment-IsValid client server deployments events r.server d t r.ttl p.1 v)
    apply-IsValid r (event e) (t, p) v =
        rw (apply, save_event_runs client server reached deployments events r e t p.1 v p.0)
          (event_commands-IsValid client server reached deployments events r e t p.1 v)

    module _ (service environment : String) (plain : IsPlain service)
        (plain_environment : HasNo b'%' environment) where
      get_deployment_replayed :
          (r : RedisStorage S) (ws : List Write)
          → IsValid client server deployments events r.server
          → All (IsEncoded deployments events) ws
          → All NamesPlain ws
          → get_deployment client deployments (replay r ws) live service environment
            ≡ last_deployment
                (get_deployment client deployments r live service environment)
                ws
                service
                environment
      unfolding replay last_deployment
      get_deployment_replayed r [] v h k = refl
      get_deployment_replayed r (deployment d ∷ ws) v ((t, p), hs) (k, ks) =
          get_deployment_replayed (apply r (deployment d)) ws
            (apply-IsValid r (deployment d) (t, p) v) hs ks
          ∙ ap (λ x. last_deployment x ws service environment)
              (get_deployment_saved client server reached deployments events r d t service
                  environment v p
                ∙ rw
                    (redis_deployment_key_test d.service service d.environment environment k.0 plain
                      k.1 plain_environment)
                    refl)
      get_deployment_replayed r (event e ∷ ws) v ((t, p), hs) (k, ks) =
          get_deployment_replayed (apply r (event e)) ws (apply-IsValid r (event e) (t, p) v) hs ks
          ∙ ap (λ x. last_deployment x ws service environment)
              (get_deployment-save_event client server reached deployments events r e t service
                environment v p)

    get_event_replayed :
        (r : RedisStorage S) (ws : List Write) (id : String)
        → IsValid client server deployments events r.server
        → All (IsEncoded deployments events) ws
        → get_event client events (replay r ws) live id
          ≡ last_event (get_event client events r live id) ws id
    unfolding replay last_event
    get_event_replayed r [] id v h = refl
    get_event_replayed r (deployment d ∷ ws) id v ((t, p), hs) =
        get_event_replayed (apply r (deployment d)) ws id (apply-IsValid r (deployment d) (t, p) v)
          hs
        ∙ ap (λ x. last_event x ws id)
            (get_event-save_deployment client server reached deployments events r d t id v p)
    get_event_replayed r (event e ∷ ws) id v ((t, p), hs) =
        get_event_replayed (apply r (event e)) ws id (apply-IsValid r (event e) (t, p) v) hs
        ∙ ap (λ x. last_event x ws id)
            (get_event-save_event client server reached deployments events r e t id v p)

    -- After any writes, under a live context and with no key expiring, of records that can be
    -- encoded and decoded back, the Redis backend over a reached server that held nothing and a new
    -- in-memory backend return the same deployment for a service and an environment and the same
    -- event for an id, if no name of a service or an environment holds a percent sign and no name
    -- of a service a colon or a NUL.
    pub backends_agree :
        (r : RedisStorage S) (ws : List Write) (service environment id : String)
        → IsNew client server r.server
        → All (IsEncoded deployments events) ws
        → All NamesPlain ws
        → All NamesNoNul ws
        → IsPlain service
        → HasNo b'%' environment
        → HasNoNul service
        → (get_deployment client deployments (replay r ws) live service environment
            ≡ Memory.get_deployment (Lookups.replay new_memory_storage ws) live service environment)
          × (get_event client events (replay r ws) live id
              ≡ Memory.get_event (Lookups.replay new_memory_storage ws) live id)
    unfolding get_deployment read_deployment decoded get_event
    backends_agree r ws service environment id h encoded plain no_nul p q n =
        let v = new-IsValid client server deployments events r.server h in
        (
          get_deployment_replayed service environment p q r ws v encoded plain
              ∙ ap (λ x. last_deployment x ws service environment)
                  (ap
                    (decoded "failed to get deployment: " "failed to unmarshal deployment: "
                      deployments.unmarshal)
                    (server.get-missing r.server _ (h (redis_deployment_key service environment)).0
                      (h (redis_deployment_key service environment)).1))
              ∙ sym (get_deployment_refines ws service environment n no_nul),
          get_event_replayed r ws id v encoded
              ∙ ap (λ x. last_event x ws id)
                  (ap
                    (decoded "failed to get event: " "failed to unmarshal event: " events.unmarshal)
                    (server.get-missing r.server _ (h (event_key_prefix <> id)).0
                      (h (event_key_prefix <> id)).1))
              ∙ sym (get_event_refines ws id),
        )

    -- On a reached, valid server, a deployment that can be encoded and decoded back, whose service
    -- is `a`, a colon and `b`, is once it is saved what a lookup returns for the service `a` and
    -- the environment that is `b`, a colon and the deployment's environment.
    pub get_deployment_collides :
        (r : RedisStorage S) (d : Deployment) (t a b : String)
        → IsValid client server deployments events r.server
        → Encodes deployments d t
        → d.service ≡ a <> ":" <> b
        → get_deployment client deployments
            (save_deployment client deployments r live (some d)).1
            live
            a
            (b <> ":" <> d.environment)
          ≡ ok d
    get_deployment_collides r d t a b v p q =
        let same : redis_deployment_key d.service d.environment
            ≡ redis_deployment_key a (b <> ":" <> d.environment) =
          ap (λ s. redis_deployment_key s d.environment) q
          ∙ redis_deployment_key_collision a b d.environment in
        get_deployment_saved client server reached deployments events r d t a
          (b <> ":" <> d.environment) v p
        ∙ rw ((eq_iff _ _).1 same) refl
