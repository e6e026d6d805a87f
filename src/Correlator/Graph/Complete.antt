-- ===== src/Correlator/Graph/Complete.antt =====
-- graph.go: where the walk is not cut off by `maxEvents`, it returns every stored event that links
-- lead to within the depth. The queue holds items of two neighbouring depths at most, so an id is
-- queued at the least depth at which links lead to it.
use mathlib.Core.List.Memᴰ
use mathlib.Core.List.{append-nil}
use mathlib.Core.Path.{subst}
use cdevents_otel_bridge.Prelude.{
  ℕ, suc, ◌+◌, ◌≤◌, ◌<◌, String, List, [], ◌∷◌, ◌++◌, ◌≡◌, ◌≢◌, refl, sym, ap, ◌⊎◌, inl, inr, true,
  arith, All, mem-All, Memᴰ, length, length-append, leb, Bool-cases, eq_iff,
}
use cdevents_otel_bridge.Errors.{Error, Result, ok, err}
use cdevents_otel_bridge.Models.{Link}
use cdevents_otel_bridge.Cdevents.{StoredEvent}
use cdevents_otel_bridge.Correlator.Graph.{QueueItem, Frontier, expand, is_visited, traverse_chain}
use cdevents_otel_bridge.Correlator.Graph.Rounds.{
  item, added, queue-follow_all, All-added, visited-follow_all, follow_all_visits, follow_all-fresh,
}
use cdevents_otel_bridge.Correlator.Graph.Layers.{
  Known, IsLayered, IsAhead, Known-move, IsLayered-append, IsAhead-move, IsAhead-append,
}
use cdevents_otel_bridge.Correlator.Graph.Loop.{frontier, loop_rule}
use cdevents_otel_bridge.Correlator.Graph.Sound.{LinkedWithin, here, step}

module _ (get_event : String → Result StoredEvent) (start_id : String) (max_depth : ℕ) where
  -- The id is known at a depth of at most d.
  abbrev KnownBy : List QueueItem → List QueueItem → ℕ → String → Type 0
  KnownBy done queue d id = (n : ℕ) × Known done queue (item id n) × (n ≤ d)

  record Inv (max_events room : ℕ) (done queue : List QueueItem) (visited : List String)
      (result : List StoredEvent) : Type 0 where
    layered : IsLayered queue
    ahead : IsAhead done queue
    seen : (id : String) → is_visited visited id ≡ true → (n : ℕ) × Known done queue (item id n)
    started : Known done queue (item start_id 0)
    closed :
        (x : QueueItem) (event : StoredEvent) (link : Link)
        → Memᴰ x done
        → get_event x.id ≡ ok event
        → x.depth < max_depth
        → Memᴰ link event.links
        → link.link_id ≢ ""
        → KnownBy done queue (x.depth + 1) link.link_id
    found :
        (x : QueueItem) (event : StoredEvent)
        → Memᴰ x done
        → get_event x.id ≡ ok event
        → Memᴰ event result
    used : length result + room ≡ max_events

  -- What is known besides the item at the head is at most one deeper than it.
  Known-depth :
      (done queue : List QueueItem) (c x : QueueItem)
      → IsLayered (c ∷ queue)
      → IsAhead done (c ∷ queue)
      → Known done (c ∷ queue) x
      → x.depth ≤ c.depth + 1
  Known-depth done queue c x l a (inl m) = mem-All (λ y. y.depth ≤ c.depth + 1) done a m
  Known-depth done queue c x l a (inr m) = elim (Memᴰ.cases_cons m) [
    | inl e ↦ omega (arith, ap (λ (y : QueueItem). y.depth) e)
    | inr r ↦ (mem-All (λ y. (c.depth ≤ y.depth) × (y.depth ≤ c.depth + 1)) queue l.0 r).1
  ]

  skipped_Inv :
      (max_events room : ℕ) (done : List QueueItem) (c : QueueItem) (queue : List QueueItem)
      (visited : List String) (result : List StoredEvent) (e : Error)
      → get_event c.id ≡ err e
      → Inv max_events room done (c ∷ queue) visited result
      → Inv max_events room (c ∷ done) queue visited result
  skipped_Inv max_events room done c queue visited result e h inv = record {
    layered = inv.layered.1;
    ahead = IsAhead-move done c queue inv.layered inv.ahead;
    seen = λ id v. let (n, k) = inv.seen id v in (n, Known-move done queue c _ k);
    started = Known-move done queue c _ inv.started;
    closed = λ x event link m g lt lm ne. elim (Memᴰ.cases_cons m) [
      | inl same ↦ absurd (cc (h, g, ap (λ (y : QueueItem). get_event y.id) same))
      | inr r ↦
          let (n, k, le) = inv.closed x event link r g lt lm ne in
          (n, Known-move done queue c _ k, le)
    ];
    found = λ x event m g. elim (Memᴰ.cases_cons m) [
      | inl same ↦ absurd (cc (h, g, ap (λ (y : QueueItem). get_event y.id) same))
      | inr r ↦ inv.found x event r g
    ];
    used = inv.used;
  }

  -- What one expansion leaves, in the terms of the invariant.
  record Expanded (c : QueueItem) (queue : List QueueItem) (visited : List String)
      (event : StoredEvent) (f : Frontier) : Type 0 where
    more : List QueueItem
    appended : f.queue ≡ queue ++ more
    deeper : All (λ y. y.depth ≡ c.depth + 1) more
    kept : (id : String) → is_visited visited id ≡ true → is_visited f.visited id ≡ true
    fresh :
        (id : String)
        → is_visited f.visited id ≡ true
        → (is_visited visited id ≡ true) ⊎ Memᴰ (item id (c.depth + 1)) more
    covers :
        (link : Link)
        → c.depth < max_depth
        → Memᴰ link event.links
        → link.link_id ≢ ""
        → is_visited f.visited link.link_id ≡ true

  frontier-Expanded :
      (c : QueueItem) (queue : List QueueItem) (visited : List String) (event : StoredEvent)
      → Expanded c queue visited event (frontier get_event max_depth c queue visited event)
  unfolding expand
  frontier-Expanded c queue visited event =
      let f : Frontier = record { visited = visited; queue = queue } in
      elim (Bool-cases (leb max_depth c.depth)) [
        | inl b ↦ rw b (record {
          more = [];
          appended = sym (append-nil queue);
          deeper = tt;
          kept = λ id v. v;
          fresh = λ id v. inl v;
          covers = λ link lt m ne. absurd (ground arith);
        })
        | inr b ↦ rw b (record {
          more = added c.depth f event.links;
          appended = queue-follow_all c.depth f event.links;
          deeper = All-added (λ y. y.depth ≡ c.depth + 1) c.depth f event.links (λ link m ne. refl);
          kept = visited-follow_all c.depth f event.links;
          fresh = follow_all-fresh c.depth f event.links;
          covers = λ link lt m ne. follow_all_visits c.depth f event.links link m ne;
        })
      ]

  Known-more :
      (done queue more : List QueueItem) (c x : QueueItem)
      → Known done (c ∷ queue) x
      → Known (c ∷ done) (queue ++ more) x
  Known-more done queue more c x k = elim (Known-move done queue c x k) [
    | inl m ↦ inl m
    | inr m ↦ inr (Memᴰ.append_left more m)
  ]

  module _ (done : List QueueItem) (c : QueueItem) (queue : List QueueItem) (visited : List String)
      (event : StoredEvent) (f : Frontier) (x : Expanded c queue visited event f) where
    -- What is visited behind the expansion is known, and not too deep.
    now_known :
        (max_events room : ℕ) (result : List StoredEvent) (id : String)
        → Inv max_events room done (c ∷ queue) visited result
        → is_visited f.visited id ≡ true
        → KnownBy (c ∷ done) (queue ++ x.more) (c.depth + 1) id
    now_known max_events room result id inv v = elim (x.fresh id v) [
      | inl old ↦
          let (n, k) = inv.seen id old in
          (
            n,
            Known-more done queue x.more c _ k,
            Known-depth done queue c (item id n) inv.layered inv.ahead k,
          )
      | inr new ↦ (c.depth + 1, inr (Memᴰ.append_right queue new), omega arith)
    ]

    taken_Inv :
        (max_events room : ℕ) (result : List StoredEvent)
        → get_event c.id ≡ ok event
        → Inv max_events (suc room) done (c ∷ queue) visited result
        → Inv max_events room (c ∷ done) (queue ++ x.more) f.visited (result ++ event ∷ [])
    taken_Inv max_events room result h inv = record {
      layered = IsLayered-append c.depth queue x.more inv.layered.1 inv.layered.0 x.deeper;
      ahead =
          IsAhead-append done c queue x.more inv.ahead
            (IsAhead-move done c queue inv.layered inv.ahead) x.deeper;
      seen = λ id v. let (n, k, _) = now_known max_events (suc room) result id inv v in (n, k);
      started = Known-more done queue x.more c _ inv.started;
      closed = λ y e link m g lt lm ne. elim (Memᴰ.cases_cons m) [
        | inl same ↦
            let at : y.depth ≡ c.depth = ap (λ (z : QueueItem). z.depth) same in
            let event_same : e ≡ event = cc (h, g, ap (λ (z : QueueItem). get_event z.id) same) in
            let (n, k, le) =
              now_known max_events (suc room) result link.link_id inv
                (x.covers link (omega arith) (subst (λ z. Memᴰ link z.links) event_same lm) ne) in
            (n, k, omega arith)
        | inr r ↦
            let (n, k, le) = inv.closed y e link r g lt lm ne in
            (n, Known-more done queue x.more c _ k, le)
      ];
      found = λ y e m g. elim (Memᴰ.cases_cons m) [
        | inl same ↦
            let event_same : e ≡ event = cc (h, g, ap (λ (z : QueueItem). get_event z.id) same) in
            Memᴰ.append_right result (Memᴰ.head event_same)
        | inr r ↦ Memᴰ.append_left (event ∷ []) (inv.found y e r g)
      ];
      used = omega (arith, inv.used, length-append result (event ∷ []));
    }

  -- The invariant, for some items that have left the queue.
  abbrev State : ℕ → ℕ → List QueueItem → List String → List StoredEvent → Type 0
  State max_events room queue visited result =
      (done : List QueueItem) × Inv max_events room done queue visited result

  started_State :
      (max_events : ℕ) → State max_events max_events (item start_id 0 ∷ []) (start_id ∷ []) []
  unfolding is_visited
  started_State max_events = (
    [],
    record {
      layered = (tt, tt);
      ahead = tt;
      seen = λ id v.
          (0, inr (Memᴰ.head (ap (λ t. item t 0) (sym (ground (arith, eq_iff start_id id))))));
      started = inr (Memᴰ.head refl);
      closed = λ x event link m g lt lm ne. absurd (Memᴰ.not-nil m);
      found = λ x event m g. absurd (Memᴰ.not-nil m);
      used = omega arith;
    },
  )

  -- With nothing queued, each id that links lead to has been done at no greater depth.
  reached_done :
      (max_events room : ℕ) (done : List QueueItem) (visited : List String)
      (result : List StoredEvent)
      → Inv max_events room done [] visited result
      → (n : ℕ) (id : String) → n ≤ max_depth
      → LinkedWithin get_event start_id n id
      → (d : ℕ) × Memᴰ (item id d) done × (d ≤ n)
  reached_done max_events room done visited result inv n id le here = elim inv.started [
    | inl m ↦ (0, m, omega arith)
    | inr m ↦ absurd (Memᴰ.not-nil m)
  ]
  reached_done max_events room done visited result inv (suc n) id le
        (step {id = from} {event = event} {link = link} w g lm ne e) =
      let (d, m, below) =
        reached_done max_events room done visited result inv n from (omega arith) w in
      let (k, known, at) = inv.closed (item from d) event link m g (omega arith) lm ne in
      elim known [
        | inl r ↦ (k, subst (λ t. Memᴰ (item t k) done) e r, omega arith)
        | inr r ↦ absurd (Memᴰ.not-nil r)
      ]

  -- Where the walk returns fewer than `max_events` events, it returns every stored event that links
  -- lead to from the start in at most `max_depth` steps.
  pub traverse_chain_complete :
      (max_events : ℕ) (out : List StoredEvent) (id : String) (event : StoredEvent)
      → traverse_chain get_event max_depth max_events start_id ≡ ok out
      → length out < max_events
      → LinkedWithin get_event start_id max_depth id
      → get_event id ≡ ok event
      → Memᴰ event out
  unfolding traverse_chain
  traverse_chain_complete max_events out id event h lt w g =
      let (room, queue, visited, (done, inv), ended) =
        loop_rule get_event max_depth (State max_events)
          (λ room current queue visited result e p (done, inv).
            let f = frontier get_event max_depth current queue visited e in
            let x = frontier-Expanded current queue visited e in
            (
              current ∷ done,
              subst (λ q. Inv max_events room (current ∷ done) q f.visited (result ++ e ∷ []))
                  (sym x.appended)
                  (taken_Inv done current queue visited e f x max_events room result p inv),
            ))
          (λ room current queue visited result cause p (done, inv). (
            current ∷ done,
            skipped_Inv max_events (suc room) done current queue visited result cause p inv,
          ))
          max_events (item start_id 0 ∷ []) (start_id ∷ []) [] out (started_State max_events) h in
      elim ended [
        | inl empty ↦
            let final = subst (λ q. Inv max_events room done q visited out) empty inv in
            let (d, m, _) =
              reached_done max_events room done visited out final max_depth id (omega arith) w in
            final.found (item id d) event m g
        | inr full ↦ absurd (omega (arith, inv.used))
      ]
