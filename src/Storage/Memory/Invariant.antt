-- ===== src/Storage/Memory/Invariant.antt =====
-- memory.go: each record stands under its own key, and each key once.
use cdevents_otel_bridge.Prelude.{String, Option, none, some, ◌≡◌, refl, false}
use cdevents_otel_bridge.Errors.{Error}
use cdevents_otel_bridge.Dict
use cdevents_otel_bridge.Dict.{Dict, HasDistinctKeys, MapRange}
use cdevents_otel_bridge.Dict.Laws.{put-HasDistinctKeys, All-put}
use cdevents_otel_bridge.Dict.Ties.{IsKeyed, values-HasNoTies}
use cdevents_otel_bridge.Sorting.{HasNoTies}
use cdevents_otel_bridge.Models.{Deployment}
use cdevents_otel_bridge.Cdevents.{StoredEvent}
use cdevents_otel_bridge.Storage.{Context, deployment_less, event_less}
use cdevents_otel_bridge.Storage.Order.{deployment_less_connected, event_less_connected}
use cdevents_otel_bridge.Storage.Memory.{
  MemoryStorage, new_memory_storage, deployment_key, save_deployment, save_event,
}

abbrev pub key_of : Deployment → String
key_of d = deployment_key d.service d.environment

pub record IsValid (m : MemoryStorage) : Type 0 where
  pub deployments_distinct : HasDistinctKeys m.deployments
  pub deployments_keyed : IsKeyed key_of m.deployments
  pub events_distinct : HasDistinctKeys m.events
  pub events_keyed : IsKeyed (λ e. e.id) m.events

pub new-IsValid : IsValid new_memory_storage
unfolding new_memory_storage
new-IsValid = record {
  deployments_distinct = tt;
  deployments_keyed = tt;
  events_distinct = tt;
  events_keyed = tt;
}

-- `SaveDeployment`, under any context and also where it fails, keeps a storage valid: each record
-- stands under its own key, and each key once.
pub save_deployment-IsValid :
    (m : MemoryStorage) (ctx : Context) (d : Option Deployment)
    → IsValid m
    → IsValid (save_deployment m ctx d).1
unfolding save_deployment
save_deployment-IsValid m ctx d v = go ctx.err d
  where
    go :
        (e : Option Error) (d : Option Deployment)
        → IsValid (save_deployment m (record { err = e }) d).1
    go (some e) d = v
    go none none = v
    go none (some d) = record {
      deployments_distinct = put-HasDistinctKeys m.deployments (key_of d) d v.deployments_distinct;
      deployments_keyed =
          All-put (λ k e. k ≡ key_of e) m.deployments (key_of d) d v.deployments_keyed refl;
      events_distinct = v.events_distinct;
      events_keyed = v.events_keyed;
    }

-- `SaveEvent`, under any context and also where it fails, keeps a storage valid: each record stands
-- under its own key, and each key once.
pub save_event-IsValid :
    (m : MemoryStorage) (ctx : Context) (event : Option StoredEvent)
    → IsValid m
    → IsValid (save_event m ctx event).1
unfolding save_event
save_event-IsValid m ctx event v = go ctx.err event
  where
    go :
        (e : Option Error) (d : Option StoredEvent)
        → IsValid (save_event m (record { err = e }) d).1
    go (some e) d = v
    go none none = v
    go none (some d) = record {
      deployments_distinct = v.deployments_distinct;
      deployments_keyed = v.deployments_keyed;
      events_distinct = put-HasDistinctKeys m.events d.id d v.events_distinct;
      events_keyed = All-put (λ k (e : StoredEvent). k ≡ e.id) m.events d.id d v.events_keyed refl;
    }

deployment_key_connected :
    (a b : Deployment)
    → deployment_less a b ≡ false
    → deployment_less b a ≡ false
    → key_of a ≡ key_of b
deployment_key_connected a b h k =
    let (s, e) = deployment_less_connected a b h k in λ i. deployment_key (s i) (e i)

pub deployments-HasNoTies :
    (m : MemoryStorage) → IsValid m → HasNoTies deployment_less (Dict.values m.deployments)
deployments-HasNoTies m v =
    values-HasNoTies deployment_less key_of deployment_key_connected m.deployments
      v.deployments_distinct v.deployments_keyed

pub events-HasNoTies : (m : MemoryStorage) → IsValid m → HasNoTies event_less (Dict.values m.events)
events-HasNoTies m v =
    values-HasNoTies event_less (λ e. e.id) event_less_connected m.events v.events_distinct
      v.events_keyed
