-- ===== src/Storage/Redis/Agreement.antt =====
-- redis.go and memory.go: the latest deployment of a service after any writes, on either backend.
use mathlib.Core.Path.{subst}
use cdevents_otel_bridge.Prelude.{
  ℕ, ◌≤◌, String, List, some, false, ◌≡◌, sym, ◌∙◌, ap, ◌<>◌, ◌==◌, eq_iff, All, ◌↔◌, inl, inr,
  Memᴰ, mem-All, keep, mem-keep,
}
use cdevents_otel_bridge.Errors.{err, not_found, ok_inj, err_not_ok}
use cdevents_otel_bridge.Dict
use cdevents_otel_bridge.Dict.{MapRange}
use cdevents_otel_bridge.Dict.Laws.{range_visits}
use cdevents_otel_bridge.Models.{Deployment}
use cdevents_otel_bridge.Cdevents.{StoredEvent}
use cdevents_otel_bridge.Storage.{deployment_less}
use cdevents_otel_bridge.Storage.Order.{deployment_less_connected}
use cdevents_otel_bridge.Storage.Latest.Unique.{latest_unique}
use cdevents_otel_bridge.Storage.Memory.Held.{
  held, held_back, replay-IsValid, last_deployment_written,
}
use cdevents_otel_bridge.Storage.Memory
use cdevents_otel_bridge.Storage.Memory.{MemoryStorage, new_memory_storage, deployment_key}
use cdevents_otel_bridge.Storage.Memory.Keys.{HasNoNul}
use cdevents_otel_bridge.Storage.Memory.Invariant
use cdevents_otel_bridge.Storage.Memory.Lookups
use cdevents_otel_bridge.Storage.Redis.{
  Client, Codec, RedisStorage, get_deployment, get_latest_deployment, deployment_key_prefix,
  escape_key_part,
}
use cdevents_otel_bridge.Storage.Redis.Server.{Server, IsReached}
use cdevents_otel_bridge.Storage.Redis.Keys.{IsPlain}
use cdevents_otel_bridge.Storage.Redis.Invariant.{IsValid, IsNew, new-IsValid}
use cdevents_otel_bridge.Storage.Redis.Replay.{IsEncoded, NamesPlain, replay, backends_agree}
use cdevents_otel_bridge.Storage.Redis.Written
use cdevents_otel_bridge.Storage.Redis.Scanning.{pages}
use cdevents_otel_bridge.Storage.Redis.Listing.{IsStored, latest_scanned}
use cdevents_otel_bridge.Storage.Memory.Lookups.{
  live, Write, deployment, event, NamesNoNul, last_deployment, get_deployment_refines,
}

module _ {S : Type 0} (client : Client S) (server : Server client)
    (reached : IsReached client server) (deployments : Codec Deployment)
    (events : Codec StoredEvent) where
  module _ (range : MapRange Deployment) (r : RedisStorage S) (ws : List Write) (service : String)
      (new : IsNew client server r.server) (encoded : All (IsEncoded deployments events) ws)
      (plain : All NamesPlain ws) (no_nul : All NamesNoNul ws) (p : IsPlain service)
      (n : HasNoNul service) where
    abbrev kept : RedisStorage S
    kept = replay client deployments events r ws

    abbrev held_records : MemoryStorage
    held_records = Lookups.replay new_memory_storage ws

    kept-IsValid : IsValid client server deployments events kept.server
    kept-IsValid =
        Written.replay-IsValid client server deployments events reached r ws
          (new-IsValid client server deployments events r.server new) encoded

    held-IsValid : Invariant.IsValid held_records
    held-IsValid = replay-IsValid new_memory_storage ws Invariant.new-IsValid

    lookups_agree :
        (d : Deployment)
        → d.service ≡ service
        → Memᴰ (deployment d) ws
        → get_deployment client deployments kept live d.service d.environment
          ≡ Memory.get_deployment held_records live d.service d.environment
    lookups_agree d same q =
        (backends_agree client deployments events server reached r ws d.service d.environment "" new
          encoded plain no_nul (subst IsPlain (sym same) p) (mem-All NamesPlain ws plain q).1
          (subst HasNoNul (sym same) n)).0

    replay-IsStored :
        (d : Deployment)
        → d.service ≡ service
        → IsStored client server deployments events kept d
          ↔ Memᴰ d (Dict.values held_records.deployments)
    replay-IsStored d same = (
      λ q.
          let e =
            (Written.get_deployment-IsStored client server deployments events kept d kept-IsValid).0
              q in
          held_back held_records held-IsValid d (
            sym (
              lookups_agree d same
                (elim (Written.written client server deployments events reached r ws d.service
                  d.environment d (new-IsValid client server deployments events r.server new)
                  encoded e) [
                    | inl f ↦ absurd (
                        err_not_ok
                          (sym (Written.new_lookup client server deployments events r _ _ new) ∙ f))
                    | inr m ↦ m
                  ]))
            ∙ e),
      λ q.
          let e = held held_records held-IsValid d q in
          let last =
            sym (
              get_deployment_refines ws d.service d.environment (subst HasNoNul (sym same) n)
                no_nul)
            ∙ e in
          (Written.get_deployment-IsStored client server deployments events kept d kept-IsValid).1 (
            lookups_agree d same
              (elim (last_deployment_written (err not_found) ws d.service d.environment d last) [
                | inl f ↦ absurd (err_not_ok f)
                | inr m ↦ m
              ])
            ∙ e),
    )

    of_service :
        (ds : List Deployment) (d : Deployment)
        → Memᴰ d (keep (λ d. d.service == service) ds) ↔ (Memᴰ d ds × (d.service ≡ service))
    of_service ds d =
        let (forth, back) = mem-keep (λ (e : Deployment). e.service == service) d ds in
        (
          λ q. ((forth q).0, (eq_iff d.service service).0 (forth q).1),
          λ (q, same). back (q, (eq_iff d.service service).1 same),
        )

    -- Of the deployments that the lookups return, no two are tied.
    stored_untied :
        (a b : Deployment)
        → IsStored client server deployments events kept a
        → IsStored client server deployments events kept b
        → deployment_less a b ≡ false
        → deployment_less b a ≡ false
        → a ≡ b
    stored_untied a b q q' h k =
        let (same, same') = deployment_less_connected a b h k in
        ok_inj (
          sym (
            (Written.get_deployment-IsStored client server deployments events kept a kept-IsValid).0
              q)
          ∙ (λ i. get_deployment client deployments kept live (same i) (same' i))
          ∙ (Written.get_deployment-IsStored client server deployments events kept b kept-IsValid).0
              q')

    -- After any writes, under a live context and with no key expiring, of records that can be
    -- encoded and decoded back, and with fuel for the pages of the scan, `GetLatestDeployment` of
    -- the Redis backend over a reached server that held nothing returns the deployment, or
    -- `ErrNotFound`, that it returns of a new in-memory backend, whatever the order in which
    -- `range` visits the map, if no name of a service or an environment that was saved holds a
    -- percent sign, none of a service that was saved a colon or a NUL, and the service's name none
    -- of the three.
    pub latest_agrees :
        (fuel : ℕ)
        → pages (
            server.scan-iterates kept.server
              ((deployment_key_prefix <> escape_key_part service <> ":") <> "*"))
          ≤ fuel
        → get_latest_deployment client deployments fuel kept live service
          ≡ some (Memory.get_latest_deployment range held_records live service)
    unfolding Memory.get_latest_deployment
    latest_agrees fuel enough =
        let (ds, p, sound, complete) =
          latest_scanned client server deployments events kept kept-IsValid fuel service enough in
        let visited = range.visit (Dict.values held_records.deployments) in
        p
        ∙ ap some (
            latest_unique (keep (λ d. d.service == service) ds)
              (keep (λ d. d.service == service) visited)
              (λ d. (
                λ q.
                    let (m, same) = (of_service ds d).0 q in
                    (of_service visited d).1 (
                      (range_visits range held_records.deployments d).1
                          ((replay-IsStored d same).0 (sound d m)),
                      same,
                    ),
                λ q.
                    let (m, same) = (of_service visited d).0 q in
                    (of_service ds d).1 (
                      complete d
                          ((replay-IsStored d same).1
                            ((range_visits range held_records.deployments d).0 m))
                          same,
                      same,
                    ),
              ))
              (λ a b q q' h k.
                stored_untied a b (sound a ((of_service ds a).0 q).0)
                  (sound b ((of_service ds b).0 q').0) h k))
