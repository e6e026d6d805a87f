-- ===== src/Correlator/Chain/Laws.antt =====
-- correlator.go: what `BuildChain` returns.
use mathlib.Core.List.Permᴰ
use cdevents_otel_bridge.Errors.{Result, ok, Result-cases}
use cdevents_otel_bridge.Prelude.{String, List, [], map, ◌≡◌, ◌≢◌, refl, ap, ◌⊎◌, inl, inr, Memᴰ}
use cdevents_otel_bridge.Dict
use cdevents_otel_bridge.Dict.{Dict, MapRange}
use cdevents_otel_bridge.Dict.Ties.{sort_ignores_range}
use cdevents_otel_bridge.Sorting.{sort}
use cdevents_otel_bridge.Sorting.Pairs.{Pairwise}
use cdevents_otel_bridge.Models.{EventChain}
use cdevents_otel_bridge.Cdevents.{StoredEvent}
use cdevents_otel_bridge.Storage.{event_less}
use cdevents_otel_bridge.Storage.Order.{event_less-IsOrder, event_less_connected, IsNewerEvent}
use cdevents_otel_bridge.Correlator.Graph.{traverse_chain, default_max_depth, default_max_events}
use cdevents_otel_bridge.Correlator.Chain.{
  to_chain_event, find_root_cause, index_events, add_siblings, load_siblings, chain_of, build_chain,
}
use cdevents_otel_bridge.Correlator.Chain.Index.{
  event_id, IsIndex, index_events-IsIndex, add_siblings-IsIndex,
}

-- What `BuildChain` promises of its result, from the events that it loaded.
pub record IsChain (id : String) (start : StoredEvent) (linked siblings : List StoredEvent)
    (chain : EventChain) : Type 0 where
  pub ordered : List StoredEvent
  pub events : chain.events ≡ map to_chain_event ordered
  pub named : (chain.chain_id ≡ start.chain_id) × (chain.start_event ≡ id)
  -- newest first
  pub newest : Pairwise IsNewerEvent ordered
  -- one event for each id
  pub unique : Pairwise (λ a b. a.id ≢ b.id) ordered
  pub sound : (e : StoredEvent) → Memᴰ e ordered → Memᴰ e linked ⊎ Memᴰ e siblings
  pub complete :
      (e : StoredEvent)
      → Memᴰ e linked ⊎ Memᴰ e siblings
      → (x : StoredEvent) × Memᴰ x ordered × (x.id ≡ e.id)
  pub root_cause : chain.root_cause ≡ find_root_cause ordered

module _ (get_event : String → Result StoredEvent)
    (get_events_by_chain : String → Result (List StoredEvent)) where
  module _ (range : MapRange StoredEvent) where
    module _ (linked siblings : List StoredEvent) where
      abbrev merged : Dict StoredEvent
      merged = add_siblings (index_events [] linked) siblings

      abbrev ordered_events : List StoredEvent
      ordered_events = sort event_less (range.visit (Dict.values merged))

      merged-IsIndex : IsIndex merged
      merged-IsIndex =
          add_siblings-IsIndex _ siblings
            (index_events-IsIndex [] linked (record { distinct = tt; keyed = tt }))

  chain_of_ignores_range :
      (first second : MapRange StoredEvent) (id : String) (start : StoredEvent)
      → (linked siblings : List StoredEvent)
      → chain_of get_event get_events_by_chain first id start linked siblings
        ≡ chain_of get_event get_events_by_chain second id start linked siblings
  unfolding chain_of
  chain_of_ignores_range first second id start linked siblings =
      let index = merged-IsIndex first linked siblings in
      rw
        (sort_ignores_range event_less event_id event_less_connected first second
          (merged first linked siblings) event_less-IsOrder index.distinct index.keyed)
        refl

  -- The chain that `BuildChain` returns, or its error, is the same in whatever order the map of
  -- events is ranged over.
  pub build_chain_ignores_range :
      (first second : MapRange StoredEvent) (id : String)
      → build_chain get_event get_events_by_chain first id
        ≡ build_chain get_event get_events_by_chain second id
  unfolding build_chain load_siblings
  build_chain_ignores_range first second id = elim (Result-cases (get_event id)) [
    | inr (e, p) ↦ rw p refl
    | inl (start, p) ↦
        elim (Result-cases (traverse_chain get_event default_max_depth default_max_events id)) [
          | inr (e, q) ↦ rw (p, q) refl
          | inl (linked, q) ↦
              elim (Result-cases (load_siblings get_event get_events_by_chain first start)) [
                | inr (e, r) ↦ rw (p, q, r) refl
                | inl (siblings, r) ↦
                    rw (p, q, r)
                      (ap ok (chain_of_ignores_range first second id start linked siblings))
              ]
        ]
  ]
