-- ===== src/Storage/Redis/Written.antt =====
-- redis.go: what a server holds after any writes, and where a deployment it returns comes from.
use cdevents_otel_bridge.Prelude.{
  String, List, [], ◌∷◌, ◌≡◌, sym, ◌∙◌, ap, ◌==◌, All, ◌↔◌, ◌⊎◌, inl, inr, Memᴰ, Bool-cases,
}
use cdevents_otel_bridge.Errors.{ok, err, not_found, ok_inj}
use cdevents_otel_bridge.Models.{Deployment}
use cdevents_otel_bridge.Cdevents.{StoredEvent}
use cdevents_otel_bridge.Storage.Redis.{
  Client, Codec, RedisStorage, get_deployment, redis_deployment_key, read_deployment, decoded,
}
use cdevents_otel_bridge.Storage.Redis.Server.{Server, IsReached}
use cdevents_otel_bridge.Storage.Redis.Keys.{has_prefix-redis_deployment_key}
use cdevents_otel_bridge.Storage.Redis.Invariant.{IsValid, IsNew}
use cdevents_otel_bridge.Storage.Redis.Lookups.{get_deployment_saved, get_deployment-save_event}
use cdevents_otel_bridge.Storage.Redis.Replay.{IsEncoded, apply, replay, apply-IsValid}
use cdevents_otel_bridge.Storage.Redis.Listing.{IsStored, read_stored, read-IsStored}
use cdevents_otel_bridge.Storage.Memory.Lookups.{live, Write, deployment, event}

module _ {S : Type 0} (client : Client S) (server : Server client) (deployments : Codec Deployment)
    (events : Codec StoredEvent) where
  abbrev Valid : RedisStorage S → Type 0
  Valid r = IsValid client server deployments events r.server

  -- What is stored on a valid server is what the lookups by the names return.
  pub get_deployment-IsStored :
      (r : RedisStorage S) (d : Deployment)
      → Valid r
      → IsStored client server deployments events r d
        ↔ (get_deployment client deployments r live d.service d.environment ≡ ok d)
  unfolding get_deployment
  get_deployment-IsStored r d v =
      let key = redis_deployment_key d.service d.environment in
      (
        read_stored client server deployments events r v d,
        λ e.
            (read-IsStored client server deployments events r v key
              (has_prefix-redis_deployment_key d.service d.environment) d e).0,
      )

  pub new_lookup :
      (r : RedisStorage S) (service environment : String)
      → IsNew client server r.server
      → get_deployment client deployments r live service environment ≡ err not_found
  unfolding get_deployment read_deployment decoded
  new_lookup r service environment h =
      let key = redis_deployment_key service environment in
      ap
        (decoded "failed to get deployment: " "failed to unmarshal deployment: "
          deployments.unmarshal)
        (server.get-missing r.server key (h key).0 (h key).1)

  module _ (reached : IsReached client server) where
    -- Any writes of records that can be encoded keep a server valid.
    pub replay-IsValid :
        (r : RedisStorage S) (ws : List Write)
        → Valid r
        → All (IsEncoded deployments events) ws
        → Valid (replay client deployments events r ws)
    unfolding replay
    replay-IsValid r [] v h = v
    replay-IsValid r (w ∷ ws) v (h, hs) =
        replay-IsValid (apply client deployments events r w) ws
          (apply-IsValid client deployments events server reached r w h v) hs

    -- A deployment that a lookup returns after some writes was there before or is one of the writes.
    pub written :
        (r : RedisStorage S) (ws : List Write) (service environment : String) (d : Deployment)
        → Valid r
        → All (IsEncoded deployments events) ws
        → get_deployment client deployments
            (replay client deployments events r ws)
            live
            service
            environment
          ≡ ok d
        → (get_deployment client deployments r live service environment ≡ ok d)
          ⊎ Memᴰ (deployment d) ws
    unfolding replay apply
    written r [] service environment d v h e = inl e
    written r (deployment x ∷ ws) service environment d v ((t, p), hs) e =
        let next = apply client deployments events r (deployment x) in
        let valid =
          apply-IsValid client deployments events server reached r (deployment x) (t, p) v in
        elim (written next ws service environment d valid hs e) [
          | inr q ↦ inr (Memᴰ.tail q)
          | inl f ↦
              let test =
                redis_deployment_key x.service x.environment
                == redis_deployment_key service environment in
              let g =
                sym (
                  get_deployment_saved client server reached deployments events r x t service
                    environment v p)
                ∙ f in
              elim (Bool-cases test) [
                | inl h ↦ inr (Memᴰ.head (ap deployment (sym (ok_inj (rw h at g)))))
                | inr h ↦ inl (rw h at g)
              ]
        ]
    written r (event x ∷ ws) service environment d v ((t, p), hs) e =
        let next = apply client deployments events r (event x) in
        let valid = apply-IsValid client deployments events server reached r (event x) (t, p) v in
        elim (written next ws service environment d valid hs e) [
          | inr q ↦ inr (Memᴰ.tail q)
          | inl f ↦ inl (
              sym (
                get_deployment-save_event client server reached deployments events r x t service
                  environment v p)
              ∙ f)
        ]
