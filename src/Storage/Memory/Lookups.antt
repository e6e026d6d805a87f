-- ===== src/Storage/Memory/Lookups.antt =====
-- memory.go: what the reads by key return after a write, and after any writes.
use cdevents_otel_bridge.Prelude.{
  String, List, [], ◌∷◌, none, some, ◌≡◌, refl, ◌∙◌, ap, ◌&&◌, ◌==◌, ◌<>◌, eq_iff, arith,
  if◌then◌else◌, All,
}
use cdevents_otel_bridge.Errors.{Result, ok, err, not_found}
use cdevents_otel_bridge.Dict
use cdevents_otel_bridge.Dict.Laws.{get-put}
use cdevents_otel_bridge.Models.{Deployment}
use cdevents_otel_bridge.Cdevents.{StoredEvent}
use cdevents_otel_bridge.Storage.{Context}
use cdevents_otel_bridge.Storage.Memory.{
  MemoryStorage, new_memory_storage, nul, deployment_key, save_deployment, get_deployment,
  save_event, get_event,
}
use cdevents_otel_bridge.Storage.Memory.Keys.{
  HasNoNul, deployment_key_test, deployment_key_collision,
}

-- A context that is neither cancelled nor past its deadline.
abbrev pub live : Context
live = record { err = none }

-- Under a live context a saved deployment is what a lookup of its service and environment returns,
-- and every other lookup returns what it returned before, if no service name holds a NUL.
pub get_deployment-save_deployment :
    (m : MemoryStorage) (d : Deployment) (service environment : String)
    → HasNoNul d.service
    → HasNoNul service
    → get_deployment (save_deployment m live (some d)).1 live service environment ≡ (
        if d.service == service && d.environment == environment
        then ok d
        else get_deployment m live service environment)
unfolding get_deployment save_deployment
get_deployment-save_deployment m d service environment h k =
    let test = deployment_key_test d.service service d.environment environment h k in
    rw (get-put, test) (ground arith)

-- A deployment whose service is `a`, a NUL and `b`, and whose environment is `c`, is once it is
-- saved under a live context what a lookup returns for the service `a` and the environment that is
-- `b`, a NUL and `c`.
pub get_deployment_collision :
    (m : MemoryStorage) (d : Deployment) (a b c : String)
    → d.service ≡ a <> nul <> b
    → d.environment ≡ c
    → get_deployment (save_deployment m live (some d)).1 live a (b <> nul <> c) ≡ ok d
unfolding get_deployment save_deployment
get_deployment_collision m d a b c p q =
    let same : deployment_key d.service d.environment ≡ deployment_key a (b <> nul <> c) =
      ap (λ s. deployment_key s d.environment) p
      ∙ ap (deployment_key (a <> nul <> b)) q
      ∙ deployment_key_collision a b c in
    rw (get-put, (eq_iff _ _).1 same)

pub get_event-save_event :
    (m : MemoryStorage) (e : StoredEvent) (id : String)
    → get_event (save_event m live (some e)).1 live id
      ≡ (if e.id == id then ok e else get_event m live id)
unfolding get_event save_event
get_event-save_event m e id = rw get-put (ground arith)

-- The writes of a history, the oldest first.
pub data Write : Type 0 where
  deployment : Deployment → Write
  event : StoredEvent → Write

unfoldable pub apply : MemoryStorage → Write → MemoryStorage
apply m (deployment d) = (save_deployment m live (some d)).1
apply m (event e) = (save_event m live (some e)).1

unfoldable pub replay : MemoryStorage → List Write → MemoryStorage
unfolding apply
replay m [] = m
replay m (w ∷ ws) = replay (apply m w) ws

-- The abstract view: the last deployment that was saved for a service and an environment.
unfoldable pub last_deployment :
    Result Deployment → List Write → String → String → Result Deployment
last_deployment before [] service environment = before
last_deployment before (deployment d ∷ ws) service environment =
    last_deployment (if d.service == service && d.environment == environment then ok d else before)
      ws service environment
last_deployment before (event e ∷ ws) service environment =
    last_deployment before ws service environment

unfoldable pub last_event : Result StoredEvent → List Write → String → Result StoredEvent
last_event before [] id = before
last_event before (deployment d ∷ ws) id = last_event before ws id
last_event before (event e ∷ ws) id = last_event (if e.id == id then ok e else before) ws id

abbrev pub NamesNoNul : Write → Type 0
NamesNoNul (deployment d) = HasNoNul d.service
NamesNoNul (event e) = Unit

get_deployment-save_event :
    (m : MemoryStorage) (e : StoredEvent) (service environment : String)
    → get_deployment (save_event m live (some e)).1 live service environment
      ≡ get_deployment m live service environment
unfolding get_deployment save_event
get_deployment-save_event m e service environment = refl

get_event-save_deployment :
    (m : MemoryStorage) (d : Deployment) (id : String)
    → get_event (save_deployment m live (some d)).1 live id ≡ get_event m live id
unfolding get_event save_deployment
get_event-save_deployment m d id = refl

module _ (service environment : String) (named : HasNoNul service) where
  pub get_deployment-replay :
      (m : MemoryStorage) (ws : List Write)
      → All NamesNoNul ws
      → get_deployment (replay m ws) live service environment
        ≡ last_deployment (get_deployment m live service environment) ws service environment
  unfolding replay last_deployment
  get_deployment-replay m [] h = refl
  get_deployment-replay m (deployment d ∷ ws) (h, hs) =
      get_deployment-replay (apply m (deployment d)) ws hs
      ∙ ap (λ r. last_deployment r ws service environment)
          (get_deployment-save_deployment m d service environment h named)
  get_deployment-replay m (event e ∷ ws) (h, hs) =
      get_deployment-replay (apply m (event e)) ws hs
      ∙ ap (λ r. last_deployment r ws service environment)
          (get_deployment-save_event m e service environment)

pub get_event-replay :
    (m : MemoryStorage) (ws : List Write) (id : String)
    → get_event (replay m ws) live id ≡ last_event (get_event m live id) ws id
unfolding replay last_event
get_event-replay m [] id = refl
get_event-replay m (deployment d ∷ ws) id =
    get_event-replay (apply m (deployment d)) ws id
    ∙ ap (λ r. last_event r ws id) (get_event-save_deployment m d id)
get_event-replay m (event e ∷ ws) id =
    get_event-replay (apply m (event e)) ws id
    ∙ ap (λ r. last_event r ws id) (get_event-save_event m e id)

-- After any writes under a live context to a new storage, a lookup under a live context returns
-- the deployment that was last saved for the service and the environment, and `ErrNotFound` if
-- there was none, where no service name holds a NUL.
pub get_deployment_refines :
    (ws : List Write) (service environment : String)
    → HasNoNul service
    → All NamesNoNul ws
    → get_deployment (replay new_memory_storage ws) live service environment
      ≡ last_deployment (err not_found) ws service environment
unfolding new_memory_storage get_deployment Dict.get
get_deployment_refines ws service environment h hs =
    get_deployment-replay service environment h new_memory_storage ws hs

-- After any writes under a live context to a new storage, `GetEvent` under a live context returns
-- the event that was last saved under the id, and `ErrNotFound` if there was none.
pub get_event_refines :
    (ws : List Write) (id : String)
    → get_event (replay new_memory_storage ws) live id ≡ last_event (err not_found) ws id
unfolding new_memory_storage get_event Dict.get
get_event_refines ws id = get_event-replay new_memory_storage ws id
