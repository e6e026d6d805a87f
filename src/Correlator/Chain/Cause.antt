-- ===== src/Correlator/Chain/Cause.antt =====
-- correlator.go: which event `FindRootCause` takes the root cause from.
use mathlib.Core.List.{reverse}
use cdevents_otel_bridge.Prelude.{
  List, [], ◌∷◌, ◌≡◌, refl, Option, none, some, Bool, ◌&&◌, not, ◌==◌, is_empty, arith,
  if◌then◌else◌,
}
use cdevents_otel_bridge.Models.{RootCause}
use cdevents_otel_bridge.Cdevents.{StoredEvent, kind_change_merged}
use cdevents_otel_bridge.Cdevents.ShortType.{short_type, is_deployment_kind}
use cdevents_otel_bridge.Cdevents.Parser.Summary.{extract_change_info}
use cdevents_otel_bridge.Correlator.Chain.{cause_of, or_cause, root_cause_from, find_root_cause}

abbrev pub has_commit : StoredEvent → Bool
has_commit event = not (is_empty (extract_change_info event).commit)

-- A change.merged event with a commit.
abbrev pub is_merge : StoredEvent → Bool
is_merge event = has_commit event && short_type event.type == kind_change_merged

-- An event of one of the three deployment kinds, with a commit.
abbrev pub is_release : StoredEvent → Bool
is_release event = has_commit event && is_deployment_kind (short_type event.type)

-- The cause that the first event which passes a test records.
unfoldable pub first_cause : (StoredEvent → Bool) → List StoredEvent → Option RootCause
first_cause p [] = none
first_cause p (event ∷ events) =
    if p event then some (cause_of (extract_change_info event)) else first_cause p events

abbrev pub or_else : Option RootCause → Option RootCause → Option RootCause
or_else none second = second
or_else (some cause) second = some cause

root_cause_from_lem :
    (fallback : Option RootCause) (events : List StoredEvent)
    → root_cause_from fallback events
      ≡ or_else (first_cause is_merge events) (or_else fallback (first_cause is_release events))
unfolding root_cause_from first_cause
root_cause_from_lem none [] = refl
root_cause_from_lem (some c) [] = refl
root_cause_from_lem fallback (event ∷ events) = ground (
  arith,
  root_cause_from_lem fallback events,
  root_cause_from_lem (or_cause fallback (cause_of (extract_change_info event))) events,
)

-- `FindRootCause` returns what the last change.merged event of the list with a commit records; if
-- there is none, what the last deployment event with a commit records; and nil if there is none of
-- either. Newest first, the last event of a list is the earliest.
pub find_root_cause_lem :
    (events : List StoredEvent)
    → find_root_cause events
      ≡ or_else (first_cause is_merge (reverse events)) (first_cause is_release (reverse events))
unfolding find_root_cause
find_root_cause_lem events = root_cause_from_lem none (reverse events)
