-- ===== src/Otelbridge/Latest.antt =====
-- internal/otel/resolver.go over the in-memory storage: the resolver that the bridge itself uses.
use mathlib.Core.Path.{subst}
use cdevents_otel_bridge.Prelude.{
  ◌≤◌, String, ◌≡◌, ◌≢◌, refl, ap, ◌∙◌, ◌⊎◌, inl, inr, none, some, Memᴰ,
}
use cdevents_otel_bridge.Errors.{
  Error, ok, err, not_found, resolver_not_found, is_not_found, Result-cases,
}
use cdevents_otel_bridge.Dict
use cdevents_otel_bridge.Dict.{MapRange}
use cdevents_otel_bridge.Models.{Deployment}
use cdevents_otel_bridge.Storage.Memory.{MemoryStorage, get_latest_deployment}
use cdevents_otel_bridge.Storage.Memory.Lookups.{live}
use cdevents_otel_bridge.Storage.Memory.Listing.{IsLatest, get_latest_deployment-IsLatest}
use cdevents_otel_bridge.Otelbridge.{Answer, failure, storage_resolve}

-- The service has no stored deployment, and the answer is `ErrNotFound` of otelbridge; or the answer
-- is a stored deployment of the service that no other is later than.
abbrev pub IsResolved : MemoryStorage → String → Answer → Type 0
IsResolved m service answer =
    ((answer ≡ failure resolver_not_found)
      × ((d : Deployment) → Memᴰ d (Dict.values m.deployments) → d.service ≢ service))
    ⊎ ((d : Deployment) × (answer ≡ record { deployment = some d; err = none })
        × Memᴰ d (Dict.values m.deployments)
        × (d.service ≡ service)
        × ((e : Deployment)
            → Memᴰ e (Dict.values m.deployments)
            → e.service ≡ service
            → e.deployed_at ≤ d.deployed_at))

storage_resolve-not_found :
    (cause : Error) → cause ≡ not_found → storage_resolve (err cause) ≡ failure resolver_not_found
unfolding storage_resolve is_not_found
storage_resolve-not_found cause e = rw e refl

storage_resolve-ok :
    (d : Deployment) → storage_resolve (ok d) ≡ record { deployment = some d; err = none }
unfolding storage_resolve
storage_resolve-ok d = refl

-- Over the in-memory storage, under a context that is not done, `StorageResolver.ResolveDeployment`
-- returns a stored deployment of the service that no other of the service is later than, and the
-- `ErrNotFound` of otelbridge, which the cached resolver remembers, where the service has none.
pub storage_resolve-IsResolved :
    (range : MapRange Deployment) (m : MemoryStorage) (service : String)
    → IsResolved m service (storage_resolve (get_latest_deployment range m live service))
storage_resolve-IsResolved range m service =
    let latest = get_latest_deployment-IsLatest range m service in
    elim (Result-cases (get_latest_deployment range m live service)) [
      | inl (d, e) ↦
          let (found, named, newest) = subst (IsLatest m service) e latest in
          inr (d, ap storage_resolve e ∙ storage_resolve-ok d, found, named, newest)
      | inr (cause, e) ↦
          let (n, absent) = subst (IsLatest m service) e latest in
          inl (ap storage_resolve e ∙ storage_resolve-not_found cause n, absent)
    ]
