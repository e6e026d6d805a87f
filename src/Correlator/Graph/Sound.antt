-- ===== src/Correlator/Graph/Sound.antt =====
-- graph.go: what the walk returns was reached along links, and is not too much. The walk fails only
-- with the storage.
use mathlib.Core.List.Memᴰ
use cdevents_otel_bridge.Prelude.{
  ℕ, zero, suc, ◌+◌, ◌≤◌, String, List, [], ◌∷◌, ◌≡◌, ◌≢◌, refl, inl, inr, false, arith, All,
  All-append, Memᴰ, length, length-append, leb, Bool-cases, ◌<>◌,
}
use cdevents_otel_bridge.Errors.{Error, Result, ok, err, wrap, is_not_found}
use cdevents_otel_bridge.Models.{Link}
use cdevents_otel_bridge.Cdevents.{StoredEvent}
use cdevents_otel_bridge.Correlator.Graph.{QueueItem, expand, traverse_chain}
use cdevents_otel_bridge.Correlator.Graph.Rounds.{item, queue-follow_all, All-added}
use cdevents_otel_bridge.Correlator.Graph.Loop.{frontier, loop-ok, loop_rule, loop_fails}

-- The ids that links of stored events lead to, in at most a number of steps.
pub data LinkedWithin (get_event : String → Result StoredEvent) (start_id : String)
    : ℕ → String → Type 0 where
  here : {n : ℕ} → LinkedWithin get_event start_id n start_id
  step :
      {n : ℕ} {id target : String} {event : StoredEvent} {link : Link}
      → LinkedWithin get_event start_id n id
      → get_event id ≡ ok event
      → Memᴰ link event.links
      → link.link_id ≢ ""
      → link.link_id ≡ target
      → LinkedWithin get_event start_id (suc n) target

module _ (get_event : String → Result StoredEvent) (start_id : String) (max_depth : ℕ) where
  pub LinkedWithin-mono :
      {n : ℕ} (m : ℕ) {id : String}
      → n ≤ m
      → LinkedWithin get_event start_id n id
      → LinkedWithin get_event start_id m id
  LinkedWithin-mono m h here = here
  LinkedWithin-mono zero h (step w e l p q) = absurd (omega arith)
  LinkedWithin-mono (suc m) h (step w e l p q) = step (LinkedWithin-mono m (omega arith) w) e l p q

  abbrev IsReached : QueueItem → Type 0
  IsReached x = LinkedWithin get_event start_id x.depth x.id × (x.depth ≤ max_depth)

  -- The event was loaded under an id that links lead to within the depth.
  abbrev pub IsLoaded : StoredEvent → Type 0
  IsLoaded event =
      (id : String) × LinkedWithin get_event start_id max_depth id × (get_event id ≡ ok event)

  frontier-IsReached :
      (current : QueueItem) (queue : List QueueItem) (visited : List String) (event : StoredEvent)
      → get_event current.id ≡ ok event
      → IsReached current
      → All IsReached queue
      → All IsReached (frontier get_event max_depth current queue visited event).queue
  unfolding expand
  frontier-IsReached current queue visited event e (w, d) h =
      elim (Bool-cases (leb max_depth current.depth)) [
        | inl b ↦ rw b h
        | inr b ↦ rw b (
            rw queue-follow_all (
              All-append IsReached queue _ h (
                All-added IsReached current.depth _ event.links (λ link m p. (
                  LinkedWithin-mono (current.depth + 1) (omega arith) (step w e m p refl),
                  ground arith,
                )))))
      ]

  -- The walk's invariant: what is queued is reached, what is returned is loaded, and each event
  -- returned has used up room.
  record Inv (max_events room : ℕ) (queue : List QueueItem) (result : List StoredEvent)
      : Type 0 where
    queued : All IsReached queue
    loaded : All IsLoaded result
    used : length result + room ≡ max_events

  -- Every event that the walk returns was loaded under an id that links lead to from the start in
  -- at most `max_depth` steps, and it returns at most `max_events` events.
  pub traverse_chain_sound :
      (max_events : ℕ) (out : List StoredEvent)
      → traverse_chain get_event max_depth max_events start_id ≡ ok out
      → All IsLoaded out × (length out ≤ max_events)
  unfolding traverse_chain
  traverse_chain_sound max_events out h =
      let (room, queue, visited, inv, _) =
        loop_rule get_event max_depth
          (λ room queue visited result. Inv max_events room queue result)
          (λ room current queue visited result event e inv. record {
            queued = frontier-IsReached current queue visited event e inv.queued.0 inv.queued.1;
            loaded =
                All-append IsLoaded result (event ∷ []) inv.loaded
                  ((current.id, LinkedWithin-mono max_depth inv.queued.0.1 inv.queued.0.0, e), tt);
            used = omega (arith, inv.used, length-append result (event ∷ []));
          })
          (λ room current queue visited result cause e inv. record {
            queued = inv.queued.1;
            loaded = inv.loaded;
            used = inv.used;
          })
          max_events (item start_id 0 ∷ []) (start_id ∷ []) [] out
          (record { queued = ((here, omega arith), tt); loaded = tt; used = omega arith }) h in
      (inv.loaded, omega (arith, inv.used))

-- The walk returns the event at which it starts, if the storage has it and one event may be returned.
pub traverse_chain_starts :
    (get_event : String → Result StoredEvent) (max_depth max_events : ℕ) (start_id : String)
    (event : StoredEvent) (out : List StoredEvent)
    → get_event start_id ≡ ok event
    → traverse_chain get_event max_depth (suc max_events) start_id ≡ ok out
    → Memᴰ event out
unfolding traverse_chain
traverse_chain_starts get_event max_depth max_events start_id event out g h =
    let start = item start_id 0 in
    let f = frontier get_event max_depth start [] (start_id ∷ []) event in
    let (_, _, _, found, _) =
      loop_rule get_event max_depth (λ room queue visited result. Memᴰ event result)
        (λ room c queue visited result e p m. Memᴰ.append_left (e ∷ []) m)
        (λ room c queue visited result cause p m. m) max_events f.queue f.visited (event ∷ []) out
        (Memᴰ.head refl)
        (rw (loop-ok get_event max_depth max_events start [] (start_id ∷ []) [] event g) at h) in
    found

-- The walk fails only where the storage returns, for some id, an error that is not `ErrNotFound`,
-- and then its error wraps that one; so it never fails with `ErrNotFound`.
pub traverse_chain_fails :
    (get_event : String → Result StoredEvent) (max_depth max_events : ℕ) (start_id : String)
    (failure : Error)
    → traverse_chain get_event max_depth max_events start_id ≡ err failure
    → (is_not_found failure ≡ false)
      × ((id : String) × (cause : Error) × (get_event id ≡ err cause)
          × (failure ≡ wrap ("failed to load event " <> id <> ": ") cause ""))
unfolding traverse_chain is_not_found
traverse_chain_fails get_event max_depth max_events start_id failure h =
    let (id, cause, e, n, w) =
      loop_fails get_event max_depth max_events (item start_id 0 ∷ []) (start_id ∷ []) [] failure
        h in
    (rw w n, (id, cause, e, w))
