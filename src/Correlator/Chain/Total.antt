-- ===== src/Correlator/Chain/Total.antt =====
-- correlator.go: when `BuildChain` returns a chain.
use cdevents_otel_bridge.Prelude.{
  true_not_false, String, List, [], ◌≡◌, refl, ap, sym, ◌∙◌, true, is_empty, Bool-cases, inl, inr,
}
use cdevents_otel_bridge.Errors.{Error, Result, ok, err, is_not_found, Result-cases}
use cdevents_otel_bridge.Dict.{MapRange}
use cdevents_otel_bridge.Models.{EventChain}
use cdevents_otel_bridge.Cdevents.{StoredEvent}
use cdevents_otel_bridge.Correlator.Graph.{traverse_chain, default_max_depth, default_max_events}
use cdevents_otel_bridge.Correlator.Graph.Sound.{traverse_chain_fails}
use cdevents_otel_bridge.Correlator.Chain.{load_siblings, chain_of, build_chain}

-- If the only error of `GetEvent` is `ErrNotFound` and `GetEventsByChain` never returns an error,
-- `BuildChain` returns a chain for each event that is there.
pub build_chain_succeeds :
    (get_event : String → Result StoredEvent)
    → (get_events_by_chain : String → Result (List StoredEvent))
    → (range : MapRange StoredEvent) (id : String) (start : StoredEvent)
    → ((other : String) (cause : Error) → get_event other ≡ err cause → is_not_found cause ≡ true)
    → ((chain_id : String)
        → (events : List StoredEvent) × (get_events_by_chain chain_id ≡ ok events))
    → get_event id ≡ ok start
    → (chain : EventChain) × (build_chain get_event get_events_by_chain range id ≡ ok chain)
unfolding build_chain load_siblings is_not_found
build_chain_succeeds get_event get_events_by_chain range id start missing loads p =
    elim (Result-cases (traverse_chain get_event default_max_depth default_max_events id)) [
      | inr (e, q) ↦
          let (n, (other, cause, r, w)) =
            traverse_chain_fails get_event default_max_depth default_max_events id e q in
          absurd (true_not_false (sym (missing other cause r) ∙ sym (ap is_not_found w) ∙ n))
      | inl (linked, q) ↦ elim (Bool-cases (is_empty start.chain_id)) [
        | inl b ↦
            (chain_of get_event get_events_by_chain range id start linked [], rw (p, q) (rw b refl))
        | inr b ↦
            let (siblings, r) = loads start.chain_id in
            (
              chain_of get_event get_events_by_chain range id start linked siblings,
              rw (p, q) (rw b (rw r refl)),
            )
      ]
    ]
