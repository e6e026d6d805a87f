-- ===== src/Storage/Memory.antt =====
-- memory.go. Each method holds the mutex while it reads or writes the maps, so a method is one step
-- on the state.
pub mod Keys
pub mod Invariant
pub mod Lookups
pub mod Listing
pub mod Held
use cdevents_otel_bridge.Prelude.{
  String, List, [], ◌∷◌, Option, none, some, ◌==◌, ◌<>◌, is_empty, keep, if◌then◌else◌,
}
use cdevents_otel_bridge.Errors.{Error, Result, ok, err, plain, not_found}
use cdevents_otel_bridge.Dict
use cdevents_otel_bridge.Dict.{Dict, MapRange}
use cdevents_otel_bridge.Models.{Deployment}
use cdevents_otel_bridge.Cdevents.{StoredEvent}
use cdevents_otel_bridge.Storage.{
  Context, ListFilter, Storage, apply_filter, latest_deployment, sort_events_newest_first,
}

pub record MemoryStorage : Type 0 where
  pub deployments : Dict Deployment
  pub events : Dict StoredEvent

unfoldable pub new_memory_storage : MemoryStorage
new_memory_storage = record { deployments = []; events = [] }

abbrev pub nul : String
nul = "\0"

unfoldable pub deployment_key : String → String → String
deployment_key service environment = service <> nul <> environment

unfoldable pub save_deployment :
    MemoryStorage → Context → Option Deployment → Result (Unit {0}) × MemoryStorage
save_deployment m ctx deployment = elim ctx.err [
  | some e ↦ (err e, m)
  | none ↦ elim deployment [
    | none ↦ (err (plain "deployment is nil"), m)
    | some d ↦ (
      ok tt,
      record m { deployments = Dict.put m.deployments (deployment_key d.service d.environment) d },
    )
  ]
]

-- `v, ok := m[k]; if !ok { return nil, ErrNotFound }`
abbrev pub found {ℓ} : {A : Type ℓ} → Option A → Result A
found none = err not_found
found (some a) = ok a

unfoldable pub get_deployment : MemoryStorage → Context → String → String → Result Deployment
get_deployment m ctx service environment = elim ctx.err [
  | some e ↦ err e
  | none ↦ found (Dict.get m.deployments (deployment_key service environment))
]

-- the two loops range over the map of deployments
module _ (range : MapRange Deployment) where
  unfoldable pub get_latest_deployment : MemoryStorage → Context → String → Result Deployment
  get_latest_deployment m ctx service = elim ctx.err [
    | some e ↦ err e
    | none ↦
        latest_deployment
          (keep (λ d. d.service == service) (range.visit (Dict.values m.deployments)))
  ]

  unfoldable pub list_deployments : MemoryStorage → Context → ListFilter → Result (List Deployment)
  list_deployments m ctx filter = elim ctx.err [
    | some e ↦ err e
    | none ↦ ok (apply_filter (range.visit (Dict.values m.deployments)) filter)
  ]

unfoldable pub save_event :
    MemoryStorage → Context → Option StoredEvent → Result (Unit {0}) × MemoryStorage
save_event m ctx event = elim ctx.err [
  | some e ↦ (err e, m)
  | none ↦ elim event [
    | none ↦ (err (plain "event is nil"), m)
    | some e ↦ (ok tt, record m { events = Dict.put m.events e.id e })
  ]
]

unfoldable pub get_event : MemoryStorage → Context → String → Result StoredEvent
get_event m ctx event_id = elim ctx.err [
  | some e ↦ err e
  | none ↦ found (Dict.get m.events event_id)
]

module _ (range : MapRange StoredEvent) where
  unfoldable pub get_events_by_chain : MemoryStorage → Context → String → Result (List StoredEvent)
  get_events_by_chain m ctx chain_id = elim ctx.err [
    | some e ↦ err e
    | none ↦
        if is_empty chain_id
        then ok []
        else ok (
            sort_events_newest_first
              (keep (λ e. e.chain_id == chain_id) (range.visit (Dict.values m.events))))
  ]

unfoldable pub ping : MemoryStorage → Context → Option Error
ping m ctx = ctx.err

unfoldable pub close : MemoryStorage → Option Error
close m = none

-- The backend as an implementation of the interface.
abbrev pub memory_storage : MapRange Deployment → MapRange StoredEvent → Storage MemoryStorage
memory_storage deployments events = record {
  save_deployment = save_deployment;
  get_deployment = get_deployment;
  get_latest_deployment = get_latest_deployment deployments;
  list_deployments = list_deployments deployments;
  save_event = save_event;
  get_event = get_event;
  get_events_by_chain = get_events_by_chain events;
  ping = ping;
  close = close;
}
