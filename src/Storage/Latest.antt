-- ===== src/Storage/Latest.antt =====
-- interface.go: what `latestDeployment` returns of the deployments of a service.
pub mod Unique
use mathlib.Core.List.Memᴰ
use cdevents_otel_bridge.Prelude.{
  String, List, [], ◌∷◌, ◌≡◌, ◌≢◌, refl, ap, ◌↔◌, inl, inr, false, ◌==◌, eq_iff, arith, mem-All,
  Memᴰ, keep, mem-keep, ◌≤◌,
}
use cdevents_otel_bridge.Errors.{Result, ok, err, not_found}
use cdevents_otel_bridge.Sorting.{sort, IsSorted}
use cdevents_otel_bridge.Sorting.Laws.{sort-IsSorted, mem-sort}
use cdevents_otel_bridge.Models.{Deployment}
use cdevents_otel_bridge.Storage.{deployment_less, first_or_not_found, latest_deployment}
use cdevents_otel_bridge.Storage.Order.{deployment_less-IsOrder, deployment_less_newest}

-- What `GetLatestDeployment` promises of its result, over the deployments that are stored.
abbrev pub IsLatestOf : (Deployment → Type 0) → String → Result Deployment → Type 0
IsLatestOf IsStored service (ok d) =
    IsStored d
    × (d.service ≡ service)
    × ((e : Deployment) → IsStored e → e.service ≡ service → e.deployed_at ≤ d.deployed_at)
IsLatestOf IsStored service (err e) =
    (e ≡ not_found) × ((d : Deployment) → IsStored d → d.service ≢ service)

pub latest_deployment_of_sorted :
    (ds : List Deployment) → latest_deployment ds ≡ first_or_not_found (sort deployment_less ds)
unfolding latest_deployment sort
latest_deployment_of_sorted [] = refl
latest_deployment_of_sorted (d ∷ ds) = refl

module _ (IsStored : Deployment → Type 0) (service : String) where
  first-IsLatestOf :
      (xs : List Deployment)
      → ((d : Deployment) → Memᴰ d xs ↔ (IsStored d × (d.service ≡ service)))
      → IsSorted deployment_less xs
      → IsLatestOf IsStored service (first_or_not_found xs)
  first-IsLatestOf [] h s = (refl, λ d q e. Memᴰ.not-nil ((h d).1 (q, e)))
  first-IsLatestOf (x ∷ xs) h (s, _) =
      let (stored, named) = (h x).0 (Memᴰ.head refl) in
      (
        stored,
        named,
        λ e q p. elim (Memᴰ.cases_cons ((h e).1 (q, p))) [
          | inl same ↦ omega (arith, ap (λ (d : Deployment). d.deployed_at) same)
          | inr r ↦ deployment_less_newest e x (mem-All (λ y. deployment_less y x ≡ false) xs s r)
        ],
      )

  -- Of a list that holds stored deployments only, and all that are of the service.
  pub latest_deployment-IsLatestOf :
      (ds : List Deployment)
      → ((d : Deployment) → Memᴰ d ds → IsStored d)
      → ((d : Deployment) → IsStored d → d.service ≡ service → Memᴰ d ds)
      → IsLatestOf IsStored service (latest_deployment (keep (λ d. d.service == service) ds))
  latest_deployment-IsLatestOf ds sound complete =
      let candidates = keep (λ (d : Deployment). d.service == service) ds in
      rw (latest_deployment_of_sorted candidates) (
        first-IsLatestOf (sort deployment_less candidates)
          (λ d. (
            λ q.
                let (a, b) =
                  (mem-keep (λ (e : Deployment). e.service == service) d ds).0
                    ((mem-sort deployment_less d _).0 q) in
                (sound d a, (eq_iff d.service service).0 b),
            λ (a, b). (mem-sort deployment_less d _).1 (
                (mem-keep (λ (e : Deployment). e.service == service) d ds).1
                  (complete d a b, (eq_iff d.service service).1 b)),
          ))
          (sort-IsSorted deployment_less deployment_less-IsOrder candidates))
