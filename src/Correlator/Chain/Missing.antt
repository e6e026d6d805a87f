-- ===== src/Correlator/Chain/Missing.antt =====
-- correlator.go: how `BuildChain` fails.
use cdevents_otel_bridge.Errors.{
  err_inj, ok_not_err, Error, Result, ok, err, is_not_found, Result-cases,
}
use cdevents_otel_bridge.Prelude.{
  false_not_true, String, List, ◌≡◌, sym, ap, ◌∙◌, ◌↔◌, inl, inr, true, false, is_empty, Bool-cases,
}
use cdevents_otel_bridge.Dict.{MapRange}
use cdevents_otel_bridge.Cdevents.{StoredEvent}
use cdevents_otel_bridge.Correlator.Graph.{traverse_chain, default_max_depth, default_max_events}
use cdevents_otel_bridge.Correlator.Graph.Sound.{traverse_chain_fails}
use cdevents_otel_bridge.Correlator.Chain.{load_siblings, build_chain}

module _ (get_event : String → Result StoredEvent)
    (get_events_by_chain : String → Result (List StoredEvent)) where
  load_siblings-is_not_found :
      (range : MapRange StoredEvent) (start : StoredEvent) (failure : Error)
      → ((chain_id : String) (cause : Error)
          → get_events_by_chain chain_id ≡ err cause
          → is_not_found cause ≡ false)
      → load_siblings get_event get_events_by_chain range start ≡ err failure
      → is_not_found failure ≡ false
  unfolding load_siblings is_not_found
  load_siblings-is_not_found range start failure quiet h =
      elim (Bool-cases (is_empty start.chain_id)) [
        | inl b ↦ absurd (ok_not_err (rw b at h))
        | inr b ↦ elim (Result-cases (get_events_by_chain start.chain_id)) [
          | inl (siblings, p) ↦ absurd (ok_not_err (rw (b, p) at h))
          | inr (cause, p) ↦ rw (sym (err_inj (rw (b, p) at h))) (quiet start.chain_id cause p)
        ]
      ]

  -- Where the read of a chain never answers `ErrNotFound`, as the code relies on, `BuildChain` fails
  -- with `ErrNotFound` just if the event at which it starts is not there.
  pub build_chain-is_not_found :
      (range : MapRange StoredEvent) (id : String) (failure : Error)
      → ((chain_id : String) (cause : Error)
          → get_events_by_chain chain_id ≡ err cause
          → is_not_found cause ≡ false)
      → build_chain get_event get_events_by_chain range id ≡ err failure
      → (is_not_found failure ≡ true)
        ↔ ((cause : Error) × (get_event id ≡ err cause) × (is_not_found cause ≡ true))
  unfolding build_chain is_not_found
  build_chain-is_not_found range id failure quiet h = elim (Result-cases (get_event id)) [
    | inr (e, p) ↦
        let made = err_inj (rw p at h) in
        (
          λ n. (e, p, rw (sym made) at n),
          λ (cause, q, n). rw (sym made) (rw (err_inj (sym q ∙ p)) at n),
        )
    | inl (start, p) ↦
        elim (Result-cases (traverse_chain get_event default_max_depth default_max_events id)) [
          | inr (e, q) ↦
              neither start p
                (traverse_chain_fails get_event default_max_depth default_max_events id failure
                  (q ∙ ap err (err_inj (rw (p, q) at h)))).0
          | inl (linked, q) ↦
              elim (Result-cases (load_siblings get_event get_events_by_chain range start)) [
                | inl (siblings, r) ↦ absurd (ok_not_err (rw (p, q, r) at h))
                | inr (e, r) ↦ neither start p (
                    load_siblings-is_not_found range start failure quiet
                      (r ∙ ap err (err_inj (rw (p, q, r) at h))))
              ]
        ]
  ]
    where
      neither :
          (start : StoredEvent)
          → get_event id ≡ ok start
          → is_not_found failure ≡ false
          → (is_not_found failure ≡ true)
            ↔ ((cause : Error) × (get_event id ≡ err cause) × (is_not_found cause ≡ true))
      neither start p n = (
        λ t. absurd (false_not_true (sym n ∙ t)),
        λ (cause, q, t). absurd (ok_not_err (sym p ∙ q)),
      )
