-- ===== src/Models/Durations.antt =====
-- pkg/models/incident.go and pipeline.go: the two `Duration` methods, and `Sub` of a time.
use cdevents_otel_bridge.Prelude.{ℕ, ◌-◌, ◌^◌, Option, none, some, leb, ltb, if◌then◌else◌}
use cdevents_otel_bridge.Prelude.Int.{ℤ, pos, negsuc}
use cdevents_otel_bridge.Time.{Time}
use cdevents_otel_bridge.Models.{Incident, PipelineRun}

abbrev pub max_duration : ℕ
max_duration = 2 ^ 63 - 1

-- t.Sub(u): a difference that does not fit into 64 bits is the largest or the smallest duration
unfoldable pub sub : Time → Time → ℤ
sub t u =
    if leb u t
    then pos (if ltb max_duration (t - u) then max_duration else t - u)
    else negsuc (if ltb max_duration (u - t - 1) then max_duration else u - t - 1)

unfoldable pub incident_duration : Incident → Option ℤ
unfolding sub
incident_duration i = elim i.resolved_at [
  | none ↦ none
  | some resolved_at ↦ some (sub resolved_at i.detected_at)
]

unfoldable pub pipeline_duration : PipelineRun → Option ℤ
unfolding sub
pipeline_duration p = elim p.finished_at [
  | none ↦ none
  | some finished_at ↦ some (sub finished_at p.started_at)
]
