-- ===== src/Storage/Memory/Listing.antt =====
-- memory.go: what the reads that range over the maps return, whatever the order of the range.
use mathlib.Core.List.Permᴰ
use cdevents_otel_bridge.Prelude.{
  String, List, ◌≡◌, ◌≢◌, refl, sym, ◌∙◌, ap, ◌↔◌, ◌==◌, eq_iff, arith, Memᴰ, Permᴰ, keep, mem-keep,
  keep-perm,
}
use cdevents_otel_bridge.Errors.{Result, ok}
use cdevents_otel_bridge.Dict
use cdevents_otel_bridge.Dict.{Dict, MapRange}
use cdevents_otel_bridge.Dict.Laws.{range_visits}
use cdevents_otel_bridge.Sorting.{sort, HasNoTies}
use cdevents_otel_bridge.Sorting.Laws.{
  sort-IsSorted, sort-perm, sort-eq_of_perm, mem-sort, keep-HasNoTies, HasNoTies-perm,
}
use cdevents_otel_bridge.Models.{Deployment}
use cdevents_otel_bridge.Cdevents.{StoredEvent}
use cdevents_otel_bridge.Storage.{ListFilter, deployment_less, event_less, first_or_not_found}
use cdevents_otel_bridge.Sorting.Pairs.{Pairwise, Pairwise-of_sorted}
use cdevents_otel_bridge.Storage.Order.{
  deployment_less-IsOrder, event_less-IsOrder, IsNewerEvent, event_less-IsNewerEvent,
}
use cdevents_otel_bridge.Storage.Latest.{
  IsLatestOf, latest_deployment-IsLatestOf, latest_deployment_of_sorted,
}
use cdevents_otel_bridge.Storage.Filter.{IsListing, apply_filter-IsListing, apply_filter_of_perm}
use cdevents_otel_bridge.Storage.Memory.{
  MemoryStorage, get_latest_deployment, list_deployments, get_events_by_chain,
}
use cdevents_otel_bridge.Storage.Memory.Invariant.{IsValid, deployments-HasNoTies}
use cdevents_otel_bridge.Storage.Memory.Lookups.{live}

-- What `GetLatestDeployment` promises of its result.
abbrev pub IsLatest : MemoryStorage → String → Result Deployment → Type 0
IsLatest m = IsLatestOf (λ d. Memᴰ d (Dict.values m.deployments))

module _ (range : MapRange Deployment) (m : MemoryStorage) where
  -- Under a live context `GetLatestDeployment` returns a stored deployment of the service that no
  -- other of the service is later than, and `ErrNotFound` exactly where the service has none.
  pub get_latest_deployment-IsLatest :
      (service : String) → IsLatest m service (get_latest_deployment range m live service)
  unfolding get_latest_deployment
  get_latest_deployment-IsLatest service =
      latest_deployment-IsLatestOf (λ d. Memᴰ d (Dict.values m.deployments)) service
        (range.visit (Dict.values m.deployments)) (λ d. (range_visits range m.deployments d).0)
        (λ d q _. (range_visits range m.deployments d).1 q)

  -- Under a live context `ListDeployments` returns a listing of the stored deployments.
  pub list_deployments-IsListing :
      (f : ListFilter)
      → (result : List Deployment) × (list_deployments range m live f ≡ ok result)
        × IsListing (range.visit (Dict.values m.deployments)) f result
  unfolding list_deployments
  list_deployments-IsListing f =
      (_, refl, apply_filter-IsListing (range.visit (Dict.values m.deployments)) f)

module _ (first second : MapRange Deployment) (m : MemoryStorage) (v : IsValid m) where
  visits_perm :
      Permᴰ (first.visit (Dict.values m.deployments)) (second.visit (Dict.values m.deployments))
  visits_perm = Permᴰ.trans (first.visit-perm _) (Permᴰ.symm (second.visit-perm _))

  untied_visit : HasNoTies deployment_less (first.visit (Dict.values m.deployments))
  untied_visit =
      HasNoTies-perm deployment_less deployment_less-IsOrder (Permᴰ.symm (first.visit-perm _))
        (deployments-HasNoTies m v)

  -- In a valid storage and under a live context, the latest deployment and the listing do not
  -- depend on the order in which the range visits the map.
  pub reads_ignore_range :
      (service : String) (f : ListFilter)
      → (get_latest_deployment first m live service ≡ get_latest_deployment second m live service)
        × (list_deployments first m live f ≡ list_deployments second m live f)
  unfolding get_latest_deployment list_deployments
  reads_ignore_range service f = (
    latest_deployment_of_sorted _
        ∙ ap first_or_not_found (
            sort-eq_of_perm deployment_less deployment_less-IsOrder
              (keep-perm (λ d. d.service == service) visits_perm)
              (keep-HasNoTies deployment_less (λ d. d.service == service) _ untied_visit))
        ∙ sym (latest_deployment_of_sorted _),
    ap ok (apply_filter_of_perm f visits_perm untied_visit),
  )

-- What `GetEventsByChain` promises of its result.
pub record IsChainListing (m : MemoryStorage) (chain_id : String) (result : List StoredEvent)
    : Type 0 where
  pub newest : Pairwise IsNewerEvent result
  -- each stored event of the chain as often as it is stored
  pub occurs : Permᴰ result (keep (λ e. e.chain_id == chain_id) (Dict.values m.events))
  pub exact :
      (e : StoredEvent) → Memᴰ e result ↔ (Memᴰ e (Dict.values m.events) × (e.chain_id ≡ chain_id))

-- Under a live context, and for a chain id that is not empty, `GetEventsByChain` returns exactly
-- the stored events of the chain, each as often as it is stored, newest first: by their times, and
-- events of one time by their ids.
pub get_events_by_chain-IsChainListing :
    (range : MapRange StoredEvent) (m : MemoryStorage) (chain_id : String)
    → chain_id ≢ ""
    → (result : List StoredEvent) × (get_events_by_chain range m live chain_id ≡ ok result)
      × IsChainListing m chain_id result
unfolding get_events_by_chain
get_events_by_chain-IsChainListing range m chain_id h =
    let kept =
      keep (λ (e : StoredEvent). e.chain_id == chain_id) (range.visit (Dict.values m.events)) in
    (
      sort event_less kept,
      ground (arith, eq_iff chain_id ""),
      record {
        newest =
            Pairwise-of_sorted IsNewerEvent event_less _ event_less-IsNewerEvent
              (sort-IsSorted event_less event_less-IsOrder kept);
        occurs = Permᴰ.trans (sort-perm event_less kept) (
            keep-perm (λ (e : StoredEvent). e.chain_id == chain_id)
              (range.visit-perm (Dict.values m.events)));
        exact = λ e. (
          λ q.
              let (a, b) =
                (mem-keep (λ x. x.chain_id == chain_id) e _).0 ((mem-sort event_less e _).0 q) in
              ((range_visits range m.events e).0 a, (eq_iff e.chain_id chain_id).0 b),
          λ (a, b). (mem-sort event_less e _).1 (
              (mem-keep (λ x. x.chain_id == chain_id) e _).1
                ((range_visits range m.events e).1 a, (eq_iff e.chain_id chain_id).1 b)),
        );
      },
    )
