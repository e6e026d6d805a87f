-- ===== src/Correlator/Graph/Loop.antt =====
-- graph.go: the rounds of the walk's loop, and the rule by which an invariant of its rounds holds
-- of what it returns.
use mathlib.Core.Path.{subst}
use cdevents_otel_bridge.Prelude.{
  ℕ, zero, suc, String, List, [], ◌∷◌, ◌++◌, ◌≡◌, refl, ◌⊎◌, inl, inr, true, false, Bool-cases,
  ◌<>◌,
}
use cdevents_otel_bridge.Errors.{Error, Result, ok, err, wrap, is_not_found, Result-cases}
use cdevents_otel_bridge.Cdevents.{StoredEvent}
use cdevents_otel_bridge.Correlator.Graph.{QueueItem, Frontier, expand, loop}

module _ (get_event : String → Result StoredEvent) (max_depth : ℕ) where
  abbrev pub frontier : QueueItem → List QueueItem → List String → StoredEvent → Frontier
  frontier current queue visited event =
      expand max_depth current event (record { visited = visited; queue = queue })

  loop-nil :
      (room : ℕ) (visited : List String) (result : List StoredEvent)
      → loop get_event max_depth room [] visited result ≡ ok result
  unfolding loop
  loop-nil zero visited result = refl
  loop-nil (suc room) visited result = refl

  loop-full :
      (current : QueueItem) (queue : List QueueItem) (visited : List String)
      (result : List StoredEvent)
      → loop get_event max_depth zero (current ∷ queue) visited result ≡ ok result
  unfolding loop
  loop-full current queue visited result = refl

  module _ (room : ℕ) (current : QueueItem) (queue : List QueueItem) (visited : List String)
      (result : List StoredEvent) where
    pub loop-ok :
        (event : StoredEvent)
        → get_event current.id ≡ ok event
        → loop get_event max_depth (suc room) (current ∷ queue) visited result
          ≡ loop get_event max_depth room
              (frontier current queue visited event).queue
              (frontier current queue visited event).visited
              (result ++ event ∷ [])
    unfolding loop
    loop-ok event h = rw (h, loop)

    loop-skip :
        (e : Error)
        → get_event current.id ≡ err e
        → is_not_found e ≡ true
        → loop get_event max_depth (suc room) (current ∷ queue) visited result
          ≡ loop get_event max_depth (suc room) queue visited result
    unfolding loop
    loop-skip e h n = rw (h, loop) (rw n)

    loop-err :
        (e : Error)
        → get_event current.id ≡ err e
        → is_not_found e ≡ false
        → loop get_event max_depth (suc room) (current ∷ queue) visited result
          ≡ err (wrap ("failed to load event " <> current.id <> ": ") e "")
    unfolding loop
    loop-err e h n = rw (h, loop) (rw n)

  module _ {κ} (P : ℕ → List QueueItem → List String → List StoredEvent → Type κ)
      (taken : (room : ℕ) (current : QueueItem) (queue : List QueueItem) (visited : List String)
          (result : List StoredEvent) (event : StoredEvent)
        → get_event current.id ≡ ok event
        → P (suc room) (current ∷ queue) visited result
        → P room
            (frontier current queue visited event).queue
            (frontier current queue visited event).visited
            (result ++ event ∷ []))
      (skipped : (room : ℕ) (current : QueueItem) (queue : List QueueItem) (visited : List String)
          (result : List StoredEvent) (e : Error)
        → get_event current.id ≡ err e
        → P (suc room) (current ∷ queue) visited result
        → P (suc room) queue visited result) where
    -- What the rounds keep holds where the loop returns: with nothing queued, or with no room left.
    abbrev pub Ends : List StoredEvent → Type κ
    Ends out =
        (room : ℕ) × (queue : List QueueItem) × (visited : List String) × P room queue visited out
        × ((queue ≡ []) ⊎ (room ≡ 0))

    pub loop_rule :
        (room : ℕ) (queue : List QueueItem) (visited : List String) (result : List StoredEvent)
        (out : List StoredEvent)
        → P room queue visited result
        → loop get_event max_depth room queue visited result ≡ ok out
        → Ends out
    loop_rule room [] visited result out p h =
        let same : result ≡ out = cc (rw (loop-nil room visited result) at h) in
        (room, [], visited, subst (P room [] visited) same p, inl refl)
    loop_rule zero (current ∷ queue) visited result out p h =
        let same : result ≡ out = cc (rw (loop-full current queue visited result) at h) in
        (zero, current ∷ queue, visited, subst (P zero (current ∷ queue) visited) same p, inr refl)
    loop_rule (suc room) (current ∷ queue) visited result out p h =
        elim (Result-cases (get_event current.id)) [
          | inl (event, e) ↦
              let f = frontier current queue visited event in
              loop_rule room f.queue f.visited (result ++ event ∷ []) out
                (taken room current queue visited result event e p)
                (rw (loop-ok room current queue visited result event e) at h)
          | inr (cause, e) ↦ elim (Bool-cases (is_not_found cause)) [
            | inl n ↦
                loop_rule (suc room) queue visited result out
                  (skipped room current queue visited result cause e p)
                  (rw (loop-skip room current queue visited result cause e n) at h)
            | inr n ↦ absurd (cc (rw (loop-err room current queue visited result cause e n) at h))
          ]
        ]

  -- The loop fails only with an error of the storage that is not `ErrNotFound`.
  pub loop_fails :
      (room : ℕ) (queue : List QueueItem) (visited : List String) (result : List StoredEvent)
      (failure : Error)
      → loop get_event max_depth room queue visited result ≡ err failure
      → (id : String) × (cause : Error) × (get_event id ≡ err cause)
        × (is_not_found cause ≡ false)
        × (failure ≡ wrap ("failed to load event " <> id <> ": ") cause "")
  loop_fails room [] visited result failure h = absurd (cc (rw (loop-nil room visited result) at h))
  loop_fails zero (current ∷ queue) visited result failure h =
      absurd (cc (rw (loop-full current queue visited result) at h))
  loop_fails (suc room) (current ∷ queue) visited result failure h =
      elim (Result-cases (get_event current.id)) [
        | inl (event, e) ↦
            let f = frontier current queue visited event in
            loop_fails room f.queue f.visited (result ++ event ∷ []) failure
              (rw (loop-ok room current queue visited result event e) at h)
        | inr (cause, e) ↦ elim (Bool-cases (is_not_found cause)) [
          | inl n ↦
              loop_fails (suc room) queue visited result failure
                (rw (loop-skip room current queue visited result cause e n) at h)
          | inr n ↦ (
            current.id,
            cause,
            e,
            n,
            cc (rw (loop-err room current queue visited result cause e n) at h),
          )
        ]
      ]
