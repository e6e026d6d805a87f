-- ===== src/Storage/Redis/Saving.antt =====
-- redis.go: `SaveDeployment` and `SaveEvent` on a server that is reached.
use cdevents_otel_bridge.Prelude.{String, some, ◌≡◌, refl, ◌<>◌, is_empty, Bool-cases, inl, inr}
use cdevents_otel_bridge.Prelude.Int.{pos, ltb_ℤ}
use cdevents_otel_bridge.Errors.{ok}
use cdevents_otel_bridge.Text.Separators.{has_prefix-append}
use cdevents_otel_bridge.Models.{Deployment}
use cdevents_otel_bridge.Cdevents.{StoredEvent}
use cdevents_otel_bridge.Storage.Redis.{
  set, Client, Codec, RedisStorage, redis_deployment_key, event_key_prefix, chain_key_prefix,
  save_deployment, save_event, event_commands,
}
use cdevents_otel_bridge.Storage.Redis.Server.{Server, IsReached, AreAccepted, after_all}
use cdevents_otel_bridge.Storage.Redis.Invariant.{
  IsValid, set_event-IsValid, s_add-IsValid, expire-IsValid,
}
use cdevents_otel_bridge.Storage.Memory.Lookups.{live}

module _ {S : Type 0} (client : Client S) (server : Server client)
    (reached : IsReached client server) (deployments : Codec Deployment)
    (events : Codec StoredEvent) (r : RedisStorage S) where
  pub save_deployment_runs :
      (d : Deployment) (t : String)
      → deployments.marshal d ≡ ok t
      → save_deployment client deployments r live (some d) ≡ (
        ok tt,
        record r {
          server =
              server.after r.server (set (redis_deployment_key d.service d.environment) t r.ttl);
        },
      )
  unfolding save_deployment
  save_deployment_runs d t p =
      rw
        (
          save_deployment,
          p,
          reached.run-after r.server (set (redis_deployment_key d.service d.environment) t r.ttl)
              tt,
        )
        refl

  module _ (e : StoredEvent) (t : String) (coded : events.unmarshal t ≡ ok e)
      (v : IsValid client server deployments events r.server) where
    written-IsValid :
        IsValid client server deployments events
          (server.after r.server (set (event_key_prefix <> e.id) t r.ttl))
    written-IsValid = set_event-IsValid client server deployments events r.server e t r.ttl coded v

    event_commands-AreAccepted :
        AreAccepted server.text server.after r.server (event_commands r.ttl e t)
    unfolding event_commands
    event_commands-AreAccepted = elim (Bool-cases (is_empty e.chain_id)) [
      | inl p ↦ rw p (tt, tt)
      | inr p ↦ elim (Bool-cases (ltb_ℤ (pos 0) r.ttl)) [
        | inl q ↦
            rw (p, q)
              (
                tt,
                (
                  written-IsValid.chains_are_sets _ (has_prefix-append chain_key_prefix e.chain_id),
                  (tt, tt),
                ),
              )
        | inr q ↦
            rw (p, q)
              (
                tt,
                (
                  written-IsValid.chains_are_sets _ (has_prefix-append chain_key_prefix e.chain_id),
                  tt,
                ),
              )
      ]
    ]

    pub event_commands-IsValid :
        IsValid client server deployments events
          (after_all server.after r.server (event_commands r.ttl e t))
    unfolding event_commands
    event_commands-IsValid =
        let added =
          s_add-IsValid client server deployments events _ e.chain_id e.id written-IsValid in
        elim (Bool-cases (is_empty e.chain_id)) [
          | inl p ↦ rw p written-IsValid
          | inr p ↦ elim (Bool-cases (ltb_ℤ (pos 0) r.ttl)) [
            | inl q ↦ rw (p, q) (expire-IsValid client server deployments events _ _ r.ttl q added)
            | inr q ↦ rw (p, q) added
          ]
        ]

    pub save_event_runs :
        events.marshal e ≡ ok t
        → save_event client events r live (some e) ≡ (
          ok tt,
          record r { server = after_all server.after r.server (event_commands r.ttl e t) },
        )
    unfolding save_event
    save_event_runs p =
        rw
          (
            save_event,
            p,
            reached.exec-after r.server (event_commands r.ttl e t) event_commands-AreAccepted,
          )
          refl
