-- ===== src/Correlator/Graph/Distinct.antt =====
-- graph.go: the visited set keeps the walk from returning an event twice.
use mathlib.Core.Path.{subst}
use mathlib.Core.List.{append-nil}
use cdevents_otel_bridge.Prelude.{
  ℕ, String, List, [], ◌∷◌, ◌++◌, ◌≡◌, ◌≢◌, sym, ap, ◌∙◌, inl, inr, true, false, ◌||◌, is_empty,
  arith, All, All-append, All-of_mem, mem-All, leb, Bool-cases, eq_iff,
}
use cdevents_otel_bridge.Errors.{Result, ok}
use cdevents_otel_bridge.Models.{Link}
use cdevents_otel_bridge.Cdevents.{StoredEvent}
use cdevents_otel_bridge.Correlator.Graph.{
  QueueItem, Frontier, expand, follow, follow_all, is_visited, traverse_chain,
}
use cdevents_otel_bridge.Correlator.Graph.Rounds.{
  item, new_items, added, queue-follow_all, visited-follow, visited-follow_all,
}
use cdevents_otel_bridge.Correlator.Graph.Loop.{frontier, loop_rule}

module _ {ℓ} {A : Type ℓ} (key : A → String) where
  -- No two elements have the same key.
  abbrev pub HasDistinct : List A → Type 0
  HasDistinct [] = Unit
  HasDistinct (x ∷ xs) = All (λ y. key y ≢ key x) xs × HasDistinct xs

module _ {ℓ} {A : Type ℓ} (key : A → String) where
  HasDistinct-append :
      (xs ys : List A)
      → HasDistinct key xs
      → HasDistinct key ys
      → All (λ x. All (λ y. key y ≢ key x) ys) xs
      → HasDistinct key (xs ++ ys)
  HasDistinct-append [] ys h k a = k
  HasDistinct-append (x ∷ xs) ys (h, hs) k (a, rest) =
      (All-append (λ y. key y ≢ key x) xs ys h a, HasDistinct-append xs ys hs k rest)

-- An added item was not visited before, and is visited afterwards.
abbrev IsNew : Frontier → Frontier → QueueItem → Type 0
IsNew f g x = (is_visited f.visited x.id ≡ false) × (is_visited g.visited x.id ≡ true)

new_items-IsNew :
    (depth : ℕ) (f : Frontier) (link : Link)
    → All (IsNew f (follow depth f link)) (new_items depth f link)
unfolding follow is_visited
new_items-IsNew depth f link =
    elim (Bool-cases (is_empty link.link_id || is_visited f.visited link.link_id)) [
      | inl h ↦ rw h tt
      | inr h ↦ rw h ((ground arith, ground (arith, eq_iff link.link_id link.link_id)), tt)
    ]

All-weaken {ℓ κ μ} :
    {A : Type ℓ} (P : A → Type κ) (Q : A → Type μ) (xs : List A)
    → ((x : A) → P x → Q x)
    → All P xs
    → All Q xs
All-weaken P Q [] f h = tt
All-weaken P Q (x ∷ xs) f (h, hs) = (f x h, All-weaken P Q xs f hs)

not_before :
    (depth : ℕ) (f : Frontier) (link : Link) (id : String)
    → is_visited (follow depth f link).visited id ≡ false
    → is_visited f.visited id ≡ false
not_before depth f link id h = elim (Bool-cases (is_visited f.visited id)) [
  | inl v ↦ absurd (cc (visited-follow depth f link id v))
  | inr v ↦ v
]

added-IsNew :
    (depth : ℕ) (f : Frontier) (links : List Link)
    → All (IsNew f (follow_all depth f links)) (added depth f links)
unfolding added follow_all
added-IsNew depth f [] = tt
added-IsNew depth f (link ∷ links) =
    let g = follow depth f link in
    All-append (IsNew f (follow_all depth g links)) (new_items depth f link) _
      (All-weaken (IsNew f g) (IsNew f (follow_all depth g links)) _
        (λ x (a, b). (a, visited-follow_all depth g links x.id b)) (new_items-IsNew depth f link))
      (All-weaken (IsNew g (follow_all depth g links)) (IsNew f (follow_all depth g links)) _
        (λ x (a, b). (not_before depth f link x.id a, b)) (added-IsNew depth g links))

abbrev id_of : QueueItem → String
id_of x = x.id

new_items-HasDistinct :
    (depth : ℕ) (f : Frontier) (link : Link) → HasDistinct id_of (new_items depth f link)
new_items-HasDistinct depth f link =
    elim (Bool-cases (is_empty link.link_id || is_visited f.visited link.link_id)) [
      | inl h ↦ rw h tt
      | inr h ↦ rw h (tt, tt)
    ]

-- What was visited differs from what was not.
apart :
    (visited : List String) (a b : String)
    → is_visited visited a ≡ true
    → is_visited visited b ≡ false
    → b ≢ a
apart visited a b h k e = cc (h, k, ap (is_visited visited) e)

added-HasDistinct :
    (depth : ℕ) (f : Frontier) (links : List Link) → HasDistinct id_of (added depth f links)
unfolding added
added-HasDistinct depth f [] = tt
added-HasDistinct depth f (link ∷ links) =
    let g = follow depth f link in
    HasDistinct-append id_of (new_items depth f link) (added depth g links)
      (new_items-HasDistinct depth f link) (added-HasDistinct depth g links)
      (All-weaken (IsNew f g) (λ x. All (λ y. y.id ≢ x.id) (added depth g links)) _
        (λ x (_, b).
          All-weaken (IsNew g (follow_all depth g links)) (λ y. y.id ≢ x.id) _
            (λ y (a, _). apart g.visited x.id y.id b a) (added-IsNew depth g links))
        (new_items-IsNew depth f link))

-- The ids that are queued or returned are visited, and all different.
record Inv (queue : List QueueItem) (visited : List String) (result : List StoredEvent)
    : Type 0 where
  queue_distinct : HasDistinct id_of queue
  result_distinct : HasDistinct (λ e. e.id) result
  queue_apart : All (λ (e : StoredEvent). All (λ x. x.id ≢ e.id) queue) result
  queue_visited : All (λ x. is_visited visited x.id ≡ true) queue
  result_visited : All (λ (e : StoredEvent). is_visited visited e.id ≡ true) result

-- Nothing is added, or what the links of the event add.
record Expanded (queue : List QueueItem) (visited : List String) (f : Frontier) : Type 0 where
  more : List QueueItem
  appended : f.queue ≡ queue ++ more
  distinct : HasDistinct id_of more
  kept : (id : String) → is_visited visited id ≡ true → is_visited f.visited id ≡ true
  new : All (λ x. (is_visited visited x.id ≡ false) × (is_visited f.visited x.id ≡ true)) more

frontier-Expanded :
    (get_event : String → Result StoredEvent) (max_depth : ℕ) (c : QueueItem)
    (queue : List QueueItem) (visited : List String) (event : StoredEvent)
    → Expanded queue visited (frontier get_event max_depth c queue visited event)
unfolding expand
frontier-Expanded get_event max_depth c queue visited event =
    let f : Frontier = record { visited = visited; queue = queue } in
    elim (Bool-cases (leb max_depth c.depth)) [
      | inl b ↦ rw b (record {
        more = [];
        appended = sym (append-nil queue);
        distinct = tt;
        kept = λ id v. v;
        new = tt;
      })
      | inr b ↦ rw b (record {
        more = added c.depth f event.links;
        appended = queue-follow_all c.depth f event.links;
        distinct = added-HasDistinct c.depth f event.links;
        kept = visited-follow_all c.depth f event.links;
        new = added-IsNew c.depth f event.links;
      })
    ]

taken_Inv :
    (c : QueueItem) (queue : List QueueItem) (visited : List String) (result : List StoredEvent)
    (event : StoredEvent) (f : Frontier) (x : Expanded queue visited f)
    → event.id ≡ c.id
    → Inv (c ∷ queue) visited result
    → Inv (queue ++ x.more) f.visited (result ++ event ∷ [])
taken_Inv c queue visited result event f x same inv =
    let seen : is_visited visited event.id ≡ true =
      ap (is_visited visited) same ∙ inv.queue_visited.0 in
    let fresh = λ (id : String) (v : is_visited visited id ≡ true).
      All-weaken
        (λ (y : QueueItem). (is_visited visited y.id ≡ false) × (is_visited f.visited y.id ≡ true))
        (λ y. y.id ≢ id) x.more (λ y (a, _). apart visited id y.id v a) x.new in
    record {
      queue_distinct = HasDistinct-append id_of queue x.more inv.queue_distinct.1 x.distinct (
          All-weaken (λ y. is_visited visited y.id ≡ true) (λ y. All (λ z. z.id ≢ y.id) x.more)
            queue (λ y v. fresh y.id v) inv.queue_visited.1);
      result_distinct =
          HasDistinct-append (λ e. e.id) result (event ∷ []) inv.result_distinct (tt, tt)
            (All-weaken (λ (e : StoredEvent). All (λ y. y.id ≢ e.id) (c ∷ queue))
              (λ e. All (λ z. z.id ≢ e.id) (event ∷ [])) result
              (λ e (h, _). (λ p. h (sym same ∙ p), tt)) inv.queue_apart);
      queue_apart =
          All-append (λ (e : StoredEvent). All (λ y. y.id ≢ e.id) (queue ++ x.more)) result
            (event ∷ [])
            (All-of_mem (λ (e : StoredEvent). All (λ y. y.id ≢ e.id) (queue ++ x.more)) result
              (λ e m.
                All-append (λ y. y.id ≢ e.id) queue x.more
                  (mem-All (λ (e : StoredEvent). All (λ y. y.id ≢ e.id) (c ∷ queue)) result
                    inv.queue_apart m).1
                  (fresh e.id (
                    mem-All (λ (e : StoredEvent). is_visited visited e.id ≡ true) result
                      inv.result_visited m))))
            (
              All-append (λ y. y.id ≢ event.id) queue x.more
                  (All-weaken (λ y. y.id ≢ c.id) (λ y. y.id ≢ event.id) queue
                    (λ y h p. h (p ∙ same)) inv.queue_distinct.0)
                  (fresh event.id seen),
              tt,
            );
      queue_visited =
          All-append (λ y. is_visited f.visited y.id ≡ true) queue x.more
            (All-weaken (λ y. is_visited visited y.id ≡ true)
              (λ y. is_visited f.visited y.id ≡ true) queue (λ y v. x.kept y.id v)
              inv.queue_visited.1)
            (All-weaken
              (λ y. (is_visited visited y.id ≡ false) × (is_visited f.visited y.id ≡ true))
              (λ y. is_visited f.visited y.id ≡ true) x.more (λ y (_, b). b) x.new);
      result_visited =
          All-append (λ (e : StoredEvent). is_visited f.visited e.id ≡ true) result (event ∷ [])
            (All-weaken (λ (e : StoredEvent). is_visited visited e.id ≡ true)
              (λ e. is_visited f.visited e.id ≡ true) result (λ e v. x.kept e.id v)
              inv.result_visited)
            (x.kept event.id seen, tt);
    }

skipped_Inv :
    (c : QueueItem) (queue : List QueueItem) (visited : List String) (result : List StoredEvent)
    → Inv (c ∷ queue) visited result
    → Inv queue visited result
skipped_Inv c queue visited result inv = record {
  queue_distinct = inv.queue_distinct.1;
  result_distinct = inv.result_distinct;
  queue_apart =
      All-weaken (λ (e : StoredEvent). All (λ y. y.id ≢ e.id) (c ∷ queue))
        (λ e. All (λ y. y.id ≢ e.id) queue) result (λ e (_, h). h) inv.queue_apart;
  queue_visited = inv.queue_visited.1;
  result_visited = inv.result_visited;
}

-- If the storage returns each event under its own id, the walk returns no two events with one id.
pub traverse_chain_distinct :
    (get_event : String → Result StoredEvent) (max_depth max_events : ℕ) (start_id : String)
    (out : List StoredEvent)
    → ((id : String) (e : StoredEvent) → get_event id ≡ ok e → e.id ≡ id)
    → traverse_chain get_event max_depth max_events start_id ≡ ok out
    → HasDistinct (λ e. e.id) out
unfolding traverse_chain is_visited
traverse_chain_distinct get_event max_depth max_events start_id out keyed h =
    let (room, queue, visited, inv, _) =
      loop_rule get_event max_depth (λ room queue visited result. Inv queue visited result)
        (λ room c queue visited result event e inv.
          let f = frontier get_event max_depth c queue visited event in
          let x = frontier-Expanded get_event max_depth c queue visited event in
          subst (λ q. Inv q f.visited (result ++ event ∷ [])) (sym x.appended)
            (taken_Inv c queue visited result event f x (keyed c.id event e) inv))
        (λ room c queue visited result cause e inv. skipped_Inv c queue visited result inv)
        max_events (item start_id 0 ∷ []) (start_id ∷ []) [] out
        (record {
          queue_distinct = (tt, tt);
          result_distinct = tt;
          queue_apart = tt;
          queue_visited = (ground (arith, eq_iff start_id start_id), tt);
          result_visited = tt;
        })
        h in
    inv.result_distinct
