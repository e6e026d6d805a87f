-- ===== src/Correlator/Graph.antt =====
-- graph.go: the breadth-first walk from an event along its links, over the storage.
pub mod Rounds
pub mod Loop
pub mod Sound
pub mod Layers
pub mod Complete
pub mod Distinct
use cdevents_otel_bridge.Prelude.{
  ℕ, zero, suc, ◌+◌, String, List, [], ◌∷◌, ◌++◌, Option, none, some, Bool, true, false, ◌||◌, ◌==◌,
  ◌<>◌, is_empty, length, ltb, leb, if◌then◌else◌,
}
use cdevents_otel_bridge.Errors.{Error, Result, ok, err, wrap, is_not_found}
use cdevents_otel_bridge.Models.{Link}
use cdevents_otel_bridge.Cdevents.{StoredEvent}
use cdevents_otel_bridge.Cdevents.Links.{link_ids}

abbrev pub default_max_depth : ℕ
default_max_depth = 32

abbrev pub default_max_events : ℕ
default_max_events = 256

pub record QueueItem : Type 0 where
  pub id : String
  pub depth : ℕ

-- `visited[id]`. The map only ever holds true, and is never ranged over: it is the list of its keys.
unfoldable pub is_visited : List String → String → Bool
is_visited [] id = false
is_visited (v ∷ visited) id = v == id || is_visited visited id

-- The variables that the loop over `event.Links` changes.
pub record Frontier : Type 0 where
  pub visited : List String
  pub queue : List QueueItem

-- one round of the loop over `event.Links`, at an item of the given depth
unfoldable pub follow : ℕ → Frontier → Link → Frontier
unfolding is_visited
follow depth f link =
    if is_empty link.link_id || is_visited f.visited link.link_id then f else record {
      visited = link.link_id ∷ f.visited;
      queue = f.queue ++ record { id = link.link_id; depth = depth + 1 } ∷ [];
    }

unfoldable pub follow_all : ℕ → Frontier → List Link → Frontier
unfolding follow
follow_all depth f [] = f
follow_all depth f (link ∷ links) = follow_all depth (follow depth f link) links

-- What the body of the loop does behind `append(result, event)`.
unfoldable pub expand : ℕ → QueueItem → StoredEvent → Frontier → Frontier
unfolding follow_all
expand max_depth current event f =
    if leb max_depth current.depth then f else follow_all current.depth f event.links

-- The storage that is walked, as it answers `GetEvent` under the context of the call.
module _ (get_event : String → Result StoredEvent) (max_depth : ℕ) where
  -- The loop. `room` is `maxEvents - len(result)`: it starts at `maxEvents`, and each event that is
  -- appended takes one, so `len(result) < maxEvents` is the test for room. With it each round
  -- either takes room or shortens the queue, and the loop ends for every storage.
  unfoldable pub loop :
      ℕ → List QueueItem → List String → List StoredEvent → Result (List StoredEvent)
  unfolding expand
  loop room [] visited result = ok result
  loop zero (current ∷ queue) visited result = ok result
  loop (suc room) (current ∷ queue) visited result = elim (get_event current.id) [
    | ok event ↦
        let f = expand max_depth current event (record { visited = visited; queue = queue }) in
        loop room f.queue f.visited (result ++ event ∷ [])
    | err e ↦ elim (is_not_found e) [
      | true ↦ loop (suc room) queue visited result
      | false ↦ err (wrap ("failed to load event " <> current.id <> ": ") e "")
    ]
  ]

  unfoldable pub traverse_chain : ℕ → String → Result (List StoredEvent)
  unfolding loop
  traverse_chain max_events start_id =
      loop max_events (record { id = start_id; depth = 0 } ∷ []) (start_id ∷ []) []

-- A nil event is `none`.
unfoldable pub linked_event_ids : Option StoredEvent → List String
linked_event_ids none = []
linked_event_ids (some e) = link_ids e.links
