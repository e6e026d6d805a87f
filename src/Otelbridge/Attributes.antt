-- ===== src/Otelbridge/Attributes.antt =====
-- attributes.go: the span attributes of a deployment. A nil deployment is `none`.
pub mod Laws
use cdevents_otel_bridge.Prelude.{
  String, List, [], ◌∷◌, ◌++◌, Option, none, some, is_empty, if◌then◌else◌,
}
use cdevents_otel_bridge.Time.{Time, is_zero}
use cdevents_otel_bridge.Models.{Deployment}

pub data Key : Type 0 where
  deployment_id deployment_version deployment_commit deployment_environment : Key
  deployment_pipeline_id deployment_repository deployment_branch : Key
  deployment_deployed_at deployment_deployed_by deployment_event_id : Key

-- the text of a key
unfoldable pub key_text : Key → String
key_text deployment_id = "deployment.id"
key_text deployment_version = "deployment.version"
key_text deployment_commit = "deployment.commit"
key_text deployment_environment = "deployment.environment"
key_text deployment_pipeline_id = "deployment.pipeline_id"
key_text deployment_repository = "deployment.repository"
key_text deployment_branch = "deployment.branch"
key_text deployment_deployed_at = "deployment.deployed_at"
key_text deployment_deployed_by = "deployment.deployed_by"
key_text deployment_event_id = "deployment.event_id"

pub record KeyValue : Type 0 where
  pub key : Key
  pub value : String

-- the closure `add`
unfoldable pub add : List KeyValue → Key → String → List KeyValue
add attrs key value =
    if is_empty value then attrs else attrs ++ record { key = key; value = value } ∷ []

-- `t.UTC().Format(time.RFC3339)` of the standard library
module _ (format_rfc3339 : Time → String) where
  abbrev pub add_time : List KeyValue → Time → List KeyValue
  add_time attrs t =
      if is_zero t then attrs else add attrs deployment_deployed_at (format_rfc3339 t)

  unfoldable pub attributes : Option Deployment → List KeyValue
  unfolding add
  attributes none = []
  attributes (some d) =
      let id = if is_empty d.id then d.event_id else d.id in
      let a1 = add [] deployment_id id in
      let a2 = add a1 deployment_version d.version in
      let a3 = add a2 deployment_commit d.commit_sha in
      let a4 = add a3 deployment_environment d.environment in
      let a5 = add a4 deployment_pipeline_id d.pipeline_id in
      let a6 = add a5 deployment_repository d.repository in
      let a7 = add a6 deployment_branch d.branch in
      let a8 = add_time a7 d.deployed_at in
      let a9 = add a8 deployment_deployed_by d.deployed_by in add a9 deployment_event_id d.event_id
