-- ===== src/Storage.antt =====
-- The package internal/storage: the interface of interface.go, its filter and its two orders. The
-- in-memory backend is below, in `Memory`.
pub mod Order
pub mod Filter
pub mod Latest
pub mod Memory
pub mod Redis
mod Tests
use cdevents_otel_bridge.Prelude.{
  ℕ, String, List, [], ◌∷◌, Option, none, some, Bool, true, false, ◌&&◌, not, ◌==◌, is_empty,
  str_ltb, length, take, keep, ltb, if◌then◌else◌,
}
use cdevents_otel_bridge.Prelude.Int.{ℤ, pos, negsuc}
use cdevents_otel_bridge.Errors.{Error, Result, ok, err, not_found}
use cdevents_otel_bridge.Time.{Time, is_zero, before, after, equal}
use cdevents_otel_bridge.Sorting.{sort}
use cdevents_otel_bridge.Models.{Deployment}
use cdevents_otel_bridge.Cdevents.{StoredEvent}

-- A `context.Context`, as the storage sees it: what `ctx.Err()` returns.
pub record Context : Type 0 where
  pub err : Option Error

pub record ListFilter : Type 0 where
  pub environment : String
  pub since : Time
  pub limit : ℤ

-- The interface, over the state `S` of a backend. A method that writes returns the new state beside
-- its result.
pub record Storage (S : Type 0) : Type 0 where
  pub save_deployment : S → Context → Option Deployment → Result (Unit {0}) × S
  pub get_deployment : S → Context → String → String → Result Deployment
  pub get_latest_deployment : S → Context → String → Result Deployment
  pub list_deployments : S → Context → ListFilter → Result (List Deployment)
  pub save_event : S → Context → Option StoredEvent → Result (Unit {0}) × S
  pub get_event : S → Context → String → Result StoredEvent
  pub get_events_by_chain : S → Context → String → Result (List StoredEvent)
  pub ping : S → Context → Option Error
  pub close : S → Option Error

unfoldable pub matches : ListFilter → Deployment → Bool
matches f d =
    if not (is_empty f.environment) && not (d.environment == f.environment)
    then false
    else if not (is_zero f.since) && before d.deployed_at f.since
    then false
    else true

-- the comparison of `sortDeploymentsNewestFirst`
unfoldable pub deployment_less : Deployment → Deployment → Bool
deployment_less a b =
    if not (equal a.deployed_at b.deployed_at)
    then after a.deployed_at b.deployed_at
    else if not (a.service == b.service)
    then str_ltb a.service b.service
    else str_ltb a.environment b.environment

abbrev pub sort_deployments_newest_first : List Deployment → List Deployment
sort_deployments_newest_first = sort deployment_less

-- `result[:limit]`, if the limit is positive and the result is longer
unfoldable pub limit_to {ℓ} : {A : Type ℓ} → ℤ → List A → List A
limit_to (pos limit) result =
    if ltb 0 limit && ltb limit (length result) then take limit result else result
limit_to (negsuc n) result = result

unfoldable pub apply_filter : List Deployment → ListFilter → List Deployment
unfolding matches limit_to
apply_filter deployments filter =
    limit_to filter.limit (sort_deployments_newest_first (keep (matches filter) deployments))

abbrev pub first_or_not_found {ℓ} : {A : Type ℓ} → List A → Result A
first_or_not_found [] = err not_found
first_or_not_found (d ∷ ds) = ok d

-- With no deployments the sort leaves none, so the test for an empty slice may stand behind it.
unfoldable pub latest_deployment : List Deployment → Result Deployment
latest_deployment [] = err not_found
latest_deployment (d ∷ ds) = first_or_not_found (sort_deployments_newest_first (d ∷ ds))

-- the comparison of `sortEventsNewestFirst`, and of `BuildChain`
unfoldable pub event_less : StoredEvent → StoredEvent → Bool
event_less a b =
    if not (equal a.timestamp b.timestamp) then after a.timestamp b.timestamp else str_ltb a.id b.id

abbrev pub sort_events_newest_first : List StoredEvent → List StoredEvent
sort_events_newest_first = sort event_less
