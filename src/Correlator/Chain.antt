-- ===== src/Correlator/Chain.antt =====
-- correlator.go: `BuildChain`, `FindRootCause` and `toChainEvent`.
pub mod Index
pub mod Laws
pub mod Cause
pub mod Total
pub mod Missing
use mathlib.Core.List.{reverse}
use cdevents_otel_bridge.Prelude.{
  ℕ, String, List, [], ◌∷◌, map, Option, none, some, ◌||◌, ◌==◌, ◌<>◌, is_empty, if◌then◌else◌,
}
use cdevents_otel_bridge.Errors.{Result, ok, err, ◌>>=◌, wrapped}
use cdevents_otel_bridge.Dict
use cdevents_otel_bridge.Dict.{Dict, MapRange}
use cdevents_otel_bridge.Models.{ChainEvent, RootCause, EventChain}
use cdevents_otel_bridge.Cdevents.{StoredEvent, kind_change_merged}
use cdevents_otel_bridge.Cdevents.ShortType.{short_type, is_deployment_kind}
use cdevents_otel_bridge.Cdevents.Parser.Summary.{ChangeInfo, extract_change_info}
use cdevents_otel_bridge.Storage.{sort_events_newest_first}
use cdevents_otel_bridge.Correlator.Graph.{traverse_chain, default_max_depth, default_max_events}

unfoldable pub cause_of : ChangeInfo → RootCause
cause_of info = record {
  commit = info.commit;
  author = info.author;
  message = info.message;
  repository = info.repository;
}

-- `if fallback == nil { fallback = cause }`
abbrev pub or_cause : Option RootCause → RootCause → Option RootCause
or_cause none cause = some cause
or_cause (some fallback) cause = some fallback

-- the loop of `FindRootCause`, over the events in the order in which it visits them
unfoldable pub root_cause_from : Option RootCause → List StoredEvent → Option RootCause
unfolding cause_of extract_change_info
root_cause_from fallback [] = fallback
root_cause_from fallback (event ∷ events) =
    let info = extract_change_info event in
    let kind = short_type event.type in
    let skip = root_cause_from fallback events in
    let keep_first = root_cause_from (or_cause fallback (cause_of info)) events in
    if is_empty info.commit
    then skip
    else if kind == kind_change_merged
    then some (cause_of info)
    else if is_deployment_kind kind
    then keep_first
    else skip

-- The loop runs from the last event to the first.
unfoldable pub find_root_cause : List StoredEvent → Option RootCause
unfolding root_cause_from
find_root_cause events = root_cause_from none (reverse events)

unfoldable pub to_chain_event : StoredEvent → ChainEvent
to_chain_event event =
    let kind = short_type event.type in
    record {
      id = event.id;
      event_type = event.type;
      timestamp = event.timestamp;
      summary = event.summary;
      commit =
          if kind == kind_change_merged || is_deployment_kind kind
          then (extract_change_info event).commit
          else "";
      links = event.links;
    }

-- the loop that indexes the linked events; a later event with the same id wins
unfoldable pub index_events : Dict StoredEvent → List StoredEvent → Dict StoredEvent
unfolding Dict.put
index_events events [] = events
index_events events (event ∷ linked) = index_events (Dict.put events event.id event) linked

-- `if _, seen := events[event.ID]; !seen { events[event.ID] = event }`
unfoldable pub add_unseen : Dict StoredEvent → StoredEvent → Dict StoredEvent
unfolding Dict.get Dict.put
add_unseen events event = elim (Dict.get events event.id) [
  | none ↦ Dict.put events event.id event
  | some other ↦ events
]

unfoldable pub add_siblings : Dict StoredEvent → List StoredEvent → Dict StoredEvent
unfolding add_unseen
add_siblings events [] = events
add_siblings events (event ∷ siblings) = add_siblings (add_unseen events event) siblings

-- The storage, as it answers under the context of the call, and the order in which the map of
-- events is ranged over.
module _ (get_event : String → Result StoredEvent)
    (get_events_by_chain : String → Result (List StoredEvent)) (range : MapRange StoredEvent) where
  unfoldable pub load_siblings : StoredEvent → Result (List StoredEvent)
  load_siblings start_event =
      if is_empty start_event.chain_id
      then ok []
      else wrapped ("failed to load chain " <> start_event.chain_id <> ": ")
          (get_events_by_chain start_event.chain_id)

  unfoldable pub chain_of : String → StoredEvent → List StoredEvent → List StoredEvent → EventChain
  unfolding index_events add_siblings
  chain_of event_id start_event linked siblings =
      let events = add_siblings (index_events [] linked) siblings in
      let ordered = sort_events_newest_first (range.visit (Dict.values events)) in
      record {
        chain_id = start_event.chain_id;
        start_event = event_id;
        events = map to_chain_event ordered;
        root_cause = find_root_cause ordered;
      }

  unfoldable pub build_chain : String → Result EventChain
  unfolding load_siblings chain_of
  build_chain event_id = do
    start_event ← wrapped ("failed to get start event " <> event_id <> ": ") (get_event event_id)
    linked ← traverse_chain get_event default_max_depth default_max_events event_id
    siblings ← load_siblings start_event
    ok (chain_of event_id start_event linked siblings)
