-- ===== src/Correlator/Tests.antt =====
-- Runs of the correlator over a storage of three events, and its theorems there.
use mathlib.Core.List.{reverse}
use cdevents_otel_bridge.Dict.Samples.{in_order, reversed}
use cdevents_otel_bridge.Errors.{
  err_inj, err_not_ok, ok_inj, ok_not_err, Error, Result, ok, err, not_found, plain, wrap,
  is_not_found,
}
use cdevents_otel_bridge.Prelude.{
  false_not_true, ℕ, ◌≤◌, String, List, [], ◌∷◌, ◌≡◌, refl, sym, ap, ◌∙◌, eq_iff, Bool-cases, inl,
  inr, some, true, false, ◌==◌, arith, All, Memᴰ, length, if◌then◌else◌,
}
use cdevents_otel_bridge.Models.{Link, EventChain}
use cdevents_otel_bridge.Models.Json.{str, field, end}
use cdevents_otel_bridge.Cdevents.{StoredEvent}
use cdevents_otel_bridge.Correlator.Graph.{traverse_chain, default_max_depth, default_max_events}
use cdevents_otel_bridge.Correlator.Graph.Sound.{
  LinkedWithin, here, step, IsLoaded, traverse_chain_sound,
}
use cdevents_otel_bridge.Correlator.Graph.Complete.{traverse_chain_complete}
use cdevents_otel_bridge.Correlator.Graph.Distinct.{HasDistinct, traverse_chain_distinct}
use cdevents_otel_bridge.Correlator.Chain.{find_root_cause, chain_of, build_chain}
use cdevents_otel_bridge.Correlator.Chain.Cause.{
  is_merge, is_release, first_cause, or_else, find_root_cause_lem,
}
use cdevents_otel_bridge.Correlator.Chain.Laws.{build_chain_ignores_range}
use cdevents_otel_bridge.Correlator.Chain.Total.{build_chain_succeeds}

abbrev link_to : String → Link
link_to id = record { link_id = id; link_type = "TRIGGERED_BY" }

abbrev event : String → String → ℕ → List Link → StoredEvent
event id type timestamp links = record {
  id = id;
  type = type;
  source = "ci";
  timestamp = timestamp;
  subject_id = "cart";
  subject_type = "service";
  chain_id = "chain";
  links = links;
  summary = "";
  raw_data = some (field "commitSha" (str id) end);
}

abbrev deployed : StoredEvent
deployed =
    event "deploy" "dev.cdevents.service.deployed.0.1.1" 30 (link_to "merge" ∷ link_to "gone" ∷ [])

abbrev merged : StoredEvent
merged = event "merge" "dev.cdevents.change.merged.0.1.2" 10 (link_to "deploy" ∷ [])

abbrev other_merge : StoredEvent
other_merge = event "later" "dev.cdevents.change.merged.0.1.2" 20 []

-- a storage that has the first two events, and fails for one id
abbrev stored : String → Result StoredEvent
stored id =
    if id == "deploy"
    then ok deployed
    else if id == "merge"
    then ok merged
    else if id == "broken"
    then err (plain "timeout")
    else err not_found

abbrev in_chain : String → Result (List StoredEvent)
in_chain chain_id = ok (other_merge ∷ merged ∷ [])

traverse_chain_run :
    traverse_chain stored default_max_depth default_max_events "deploy"
    ≡ ok (deployed ∷ merged ∷ [])
unfolding traverse_chain is_not_found
traverse_chain_run = refl

abbrev walked : List StoredEvent
walked = deployed ∷ merged ∷ []

merge_is_linked : LinkedWithin stored "deploy" default_max_depth "merge"
merge_is_linked = step (here {n = 31}) refl (Memᴰ.head refl) (λ e. merge_not_empty e) refl
  where
    merge_not_empty : ◌≡◌ {A = String} "merge" "" → ⊥
    merge_not_empty e = absurd (false_not_true ((eq_iff "merge" "").1 e))

traverse_chain_complete_example : Memᴰ merged walked
traverse_chain_complete_example =
    traverse_chain_complete stored "deploy" default_max_depth default_max_events walked "merge"
      merged traverse_chain_run (omega arith) merge_is_linked refl

traverse_chain_sound_example :
    All (IsLoaded stored "deploy" default_max_depth) walked × (length walked ≤ default_max_events)
traverse_chain_sound_example =
    traverse_chain_sound stored "deploy" default_max_depth default_max_events walked
      traverse_chain_run

-- a storage of the first event alone
abbrev one_event : String → Result StoredEvent
one_event id = if id == "deploy" then ok deployed else err not_found

one_event_keyed : (id : String) (e : StoredEvent) → one_event id ≡ ok e → e.id ≡ id
one_event_keyed id e h = elim (Bool-cases (id == "deploy")) [
  | inl b ↦
      ap (λ (x : StoredEvent). x.id) (sym (ok_inj (rw b at h))) ∙ sym ((eq_iff id "deploy").0 b)
  | inr b ↦ absurd (err_not_ok (rw b at h))
]

one_event_walk :
    traverse_chain one_event default_max_depth default_max_events "deploy" ≡ ok (deployed ∷ [])
unfolding traverse_chain is_not_found
one_event_walk = refl

traverse_chain_distinct_example : HasDistinct (λ e. e.id) (deployed ∷ [])
traverse_chain_distinct_example =
    traverse_chain_distinct one_event default_max_depth default_max_events "deploy" (deployed ∷ [])
      one_event_keyed one_event_walk

abbrev siblings : List StoredEvent
siblings = other_merge ∷ merged ∷ []

abbrev chain : EventChain
chain = chain_of stored in_chain in_order "deploy" deployed walked siblings

build_chain_ignores_range_example :
    build_chain stored in_chain in_order "deploy" ≡ build_chain stored in_chain reversed "deploy"
build_chain_ignores_range_example =
    build_chain_ignores_range stored in_chain in_order reversed "deploy"

abbrev no_start : Error
no_start = wrap "failed to get start event gone: " not_found ""

in_chain_quiet :
    (chain_id : String) (cause : Error) → in_chain chain_id ≡ err cause → is_not_found cause ≡ false
in_chain_quiet chain_id cause h = absurd (ok_not_err h)

one_event_missing :
    (id : String) (cause : Error) → one_event id ≡ err cause → is_not_found cause ≡ true
unfolding is_not_found
one_event_missing id cause h = elim (Bool-cases (id == "deploy")) [
  | inl b ↦ absurd (ok_not_err (rw b at h))
  | inr b ↦ rw (sym (err_inj (rw b at h))) refl
]

build_chain_succeeds_example :
    (found : EventChain) × (build_chain one_event in_chain in_order "deploy" ≡ ok found)
build_chain_succeeds_example =
    build_chain_succeeds one_event in_chain in_order "deploy" deployed one_event_missing
      (λ chain_id. (siblings, refl)) refl

-- The earliest merge of the chain is its root cause.
find_root_cause_lem_example :
    find_root_cause (deployed ∷ other_merge ∷ merged ∷ [])
    ≡ or_else
        (first_cause is_merge (reverse (deployed ∷ other_merge ∷ merged ∷ [])))
        (first_cause is_release (reverse (deployed ∷ other_merge ∷ merged ∷ [])))
find_root_cause_lem_example = find_root_cause_lem (deployed ∷ other_merge ∷ merged ∷ [])
