-- ===== src/Storage/Memory/Held.antt =====
-- memory.go: the deployments of a storage and what the lookups by their names return.
use mathlib.Core.Path.{subst}
use cdevents_otel_bridge.Prelude.{
  String, List, [], ◌∷◌, some, ◌≡◌, refl, sym, ◌∙◌, ap, ◌==◌, ◌⊎◌, inl, inr, ◌&&◌, if◌then◌else◌,
  Memᴰ, mem-All, Bool-cases, Option-cases,
}
use cdevents_otel_bridge.Errors.{Result, ok, ok_inj, err_not_ok}
use cdevents_otel_bridge.Dict
use cdevents_otel_bridge.Dict.{MapRange}
use cdevents_otel_bridge.Dict.Laws.{get-of_mem, mem-of_get, mem-values, key_of_value}
use cdevents_otel_bridge.Models.{Deployment}
use cdevents_otel_bridge.Storage.Memory
use cdevents_otel_bridge.Storage.Memory.{MemoryStorage, new_memory_storage, deployment_key}
use cdevents_otel_bridge.Storage.Memory.Invariant
use cdevents_otel_bridge.Storage.Memory.Lookups
use cdevents_otel_bridge.Storage.Memory.Lookups.{
  live, Write, deployment, event, NamesNoNul, last_deployment, get_deployment_refines,
}

-- In a valid storage the deployments are what the lookups by their names return.
module _ (m : MemoryStorage) (v : Invariant.IsValid m) where
  pub held :
      (d : Deployment)
      → Memᴰ d (Dict.values m.deployments)
      → Memory.get_deployment m live d.service d.environment ≡ ok d
  unfolding Memory.get_deployment
  held d q =
      let (k, r) = key_of_value m.deployments d q in
      let keyed : k ≡ deployment_key d.service d.environment =
        mem-All (λ (e : String × Deployment). e.0 ≡ Invariant.key_of e.1) m.deployments
          v.deployments_keyed r in
      rw
        (get-of_mem m.deployments (deployment_key d.service d.environment) d v.deployments_distinct
          (subst (λ x. Memᴰ (x, d) m.deployments) keyed r))
        refl

  pub held_back :
      (d : Deployment)
      → Memory.get_deployment m live d.service d.environment ≡ ok d
      → Memᴰ d (Dict.values m.deployments)
  unfolding Memory.get_deployment
  held_back d e =
      let key = deployment_key d.service d.environment in
      elim (Option-cases (Dict.get m.deployments key)) [
        | inl h ↦ absurd (err_not_ok (rw h at e))
        | inr (d', h) ↦
            let same : d' ≡ d = ok_inj (rw h at e) in
            mem-values m.deployments key d (mem-of_get m.deployments key d (h ∙ ap some same))
      ]

-- Any writes keep a storage valid.
pub replay-IsValid :
    (m : MemoryStorage) (ws : List Write)
    → Invariant.IsValid m
    → Invariant.IsValid (Lookups.replay m ws)
unfolding Lookups.replay Lookups.apply
replay-IsValid m [] v = v
replay-IsValid m (deployment d ∷ ws) v =
    replay-IsValid (Lookups.apply m (deployment d)) ws
      (Invariant.save_deployment-IsValid m live (some d) v)
replay-IsValid m (event e ∷ ws) v =
    replay-IsValid (Lookups.apply m (event e)) ws (Invariant.save_event-IsValid m live (some e) v)

-- The last deployment saved under the names is one of the writes.
pub last_deployment_written :
    (before : Result Deployment) (ws : List Write) (service environment : String) (d : Deployment)
    → last_deployment before ws service environment ≡ ok d
    → (before ≡ ok d) ⊎ Memᴰ (deployment d) ws
unfolding last_deployment
last_deployment_written before [] service environment d e = inl e
last_deployment_written before (event x ∷ ws) service environment d e =
    elim (last_deployment_written before ws service environment d e) [
      | inl p ↦ inl p
      | inr q ↦ inr (Memᴰ.tail q)
    ]
last_deployment_written before (deployment x ∷ ws) service environment d e =
    elim (last_deployment_written
      (if x.service == service && x.environment == environment then ok x else before) ws service
      environment d e) [
        | inr q ↦ inr (Memᴰ.tail q)
        | inl p ↦ elim (Bool-cases (x.service == service && x.environment == environment)) [
          | inl h ↦ inr (Memᴰ.head (ap deployment (sym (ok_inj (rw h at p)))))
          | inr h ↦ inl (rw h at p)
        ]
      ]
