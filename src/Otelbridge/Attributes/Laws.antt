-- ===== src/Otelbridge/Attributes/Laws.antt =====
-- attributes.go: no attribute is set to an empty value.
use cdevents_otel_bridge.Prelude.{
  String, List, [], ◌≡◌, Option, none, some, false, is_empty, All, All-append, if◌then◌else◌,
  Bool-cases, inl, inr,
}
use cdevents_otel_bridge.Time.{Time, is_zero}
use cdevents_otel_bridge.Models.{Deployment}
use cdevents_otel_bridge.Otelbridge.Attributes.{
  Key, deployment_id, deployment_version, deployment_commit, deployment_environment,
  deployment_pipeline_id, deployment_repository, deployment_branch, deployment_deployed_by,
  deployment_event_id, KeyValue, add, add_time, attributes,
}

HasValue : KeyValue → Type 0
HasValue a = is_empty a.value ≡ false

add-HasValue :
    (attrs : List KeyValue) (key : Key) (value : String)
    → All HasValue attrs
    → All HasValue (add attrs key value)
unfolding add HasValue
add-HasValue attrs key value h = elim (Bool-cases (is_empty value)) [
  | inl e ↦ rw e h
  | inr e ↦ rw e (All-append HasValue attrs _ h (e, tt))
]

add_time-HasValue :
    (format_rfc3339 : Time → String) (attrs : List KeyValue) (t : Time)
    → All HasValue attrs
    → All HasValue (add_time format_rfc3339 attrs t)
add_time-HasValue format_rfc3339 attrs t h = elim (Bool-cases (is_zero t)) [
  | inl e ↦ rw e h
  | inr e ↦ rw e (add-HasValue attrs _ (format_rfc3339 t) h)
]

-- No attribute that `Attributes` returns has an empty value.
pub attributes-HasValue :
    (format_rfc3339 : Time → String) (d : Option Deployment)
    → All (λ a. is_empty a.value ≡ false) (attributes format_rfc3339 d)
unfolding attributes HasValue
attributes-HasValue format_rfc3339 none = tt
attributes-HasValue format_rfc3339 (some d) =
    let h0 : All HasValue [] = tt in
    let a0 : List KeyValue = [] in
    let a1 = add a0 deployment_id (if is_empty d.id then d.event_id else d.id) in
    let h1 : All HasValue a1 =
      add-HasValue a0 deployment_id (if is_empty d.id then d.event_id else d.id) h0 in
    let a2 = add a1 deployment_version d.version in
    let h2 : All HasValue a2 = add-HasValue a1 deployment_version d.version h1 in
    let a3 = add a2 deployment_commit d.commit_sha in
    let h3 : All HasValue a3 = add-HasValue a2 deployment_commit d.commit_sha h2 in
    let a4 = add a3 deployment_environment d.environment in
    let h4 : All HasValue a4 = add-HasValue a3 deployment_environment d.environment h3 in
    let a5 = add a4 deployment_pipeline_id d.pipeline_id in
    let h5 : All HasValue a5 = add-HasValue a4 deployment_pipeline_id d.pipeline_id h4 in
    let a6 = add a5 deployment_repository d.repository in
    let h6 : All HasValue a6 = add-HasValue a5 deployment_repository d.repository h5 in
    let a7 = add a6 deployment_branch d.branch in
    let h7 : All HasValue a7 = add-HasValue a6 deployment_branch d.branch h6 in
    let a8 = add_time format_rfc3339 a7 d.deployed_at in
    let h8 : All HasValue a8 = add_time-HasValue format_rfc3339 a7 d.deployed_at h7 in
    let a9 = add a8 deployment_deployed_by d.deployed_by in
    let h9 : All HasValue a9 = add-HasValue a8 deployment_deployed_by d.deployed_by h8 in
    let a10 = add a9 deployment_event_id d.event_id in
    let h10 : All HasValue a10 = add-HasValue a9 deployment_event_id d.event_id h9 in h10
