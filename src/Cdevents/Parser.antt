-- ===== src/Cdevents/Parser.antt =====
-- parser.go: from an event to the models that the bridge stores and logs. A nil event is handled by
-- the callers of these functions, which are given an event that is there.
pub mod Summary
pub mod Conversions
pub mod ChangeInfo
use cdevents_otel_bridge.Prelude.{
  String, List, [], ◌∷◌, Option, none, some, is_empty, ◌==◌, if◌then◌else◌,
}
use cdevents_otel_bridge.Time.{Time}
use cdevents_otel_bridge.Models.{Deployment, PipelineRun, Incident}
use cdevents_otel_bridge.Cdevents.{
  CdEvent, kind_pipeline_run_queued, kind_pipeline_run_started, kind_pipeline_run_finish,
  kind_incident_detected, kind_incident_reported, kind_incident_resolved,
}
use cdevents_otel_bridge.Cdevents.ShortType.{short_type}
use cdevents_otel_bridge.Cdevents.ArtifactVersion.{version_from_artifact_id}
use cdevents_otel_bridge.Cdevents.Fields.{
  get_string_field, get_nested_string, string_from, identity_from, first_non_empty,
}

abbrev pub commit_keys : List String
commit_keys = "commitSha" ∷ "commit" ∷ "sha" ∷ "gitCommit" ∷ []

abbrev pub repository_keys : List String
repository_keys = "repository" ∷ "repo" ∷ "repositoryUrl" ∷ []

abbrev pub author_keys : List String
author_keys = "author" ∷ "committer" ∷ "actor" ∷ []

abbrev pub message_keys : List String
message_keys = "message" ∷ "commitMessage" ∷ "title" ∷ "description" ∷ []

abbrev pub branch_keys : List String
branch_keys = "branch" ∷ "ref" ∷ []

abbrev pub pipeline_id_keys : List String
pipeline_id_keys = "pipelineId" ∷ "pipelineRunId" ∷ "buildId" ∷ "runId" ∷ []

abbrev pub pipeline_url_key : List String
pipeline_url_key = "pipelineUrl" ∷ "buildUrl" ∷ "workflowUrl" ∷ "runUrl" ∷ []

abbrev pub deployer_keys : List String
deployer_keys = "deployer" ∷ "deployedBy" ∷ []

abbrev pub service_keys : List String
service_keys = "service" ∷ "serviceName" ∷ []

abbrev pub severity_keys : List String
severity_keys = "severity" ∷ "priority" ∷ []

abbrev pub desc_keys : List String
desc_keys = "description" ∷ "summary" ∷ "title" ∷ "message" ∷ []

abbrev pub outcome_keys : List String
outcome_keys = "outcome" ∷ "status" ∷ "result" ∷ []

unfoldable pub to_deployment : CdEvent → Deployment
to_deployment e =
    let content = e.subject.content in
    let custom = e.custom_data in
    record {
      id = e.subject.id;
      service = first_non_empty (
          get_nested_string content ("service" ∷ "name" ∷ [])
          ∷ string_from service_keys (custom ∷ [])
          ∷ e.subject.id
          ∷ []);
      version = first_non_empty (
          get_nested_string content ("service" ∷ "version" ∷ [])
          ∷ string_from ("version" ∷ []) (custom ∷ [])
          ∷ version_from_artifact_id (get_string_field content "artifactId")
          ∷ []);
      environment = first_non_empty (
          get_nested_string content ("environment" ∷ "id" ∷ [])
          ∷ get_string_field content "environment"
          ∷ identity_from ("environment" ∷ []) (custom ∷ [])
          ∷ []);
      commit_sha = string_from commit_keys (custom ∷ content ∷ []);
      repository = identity_from repository_keys (custom ∷ content ∷ []);
      branch = string_from branch_keys (custom ∷ content ∷ []);
      author = string_from author_keys (custom ∷ content ∷ []);
      pipeline_id = string_from pipeline_id_keys (custom ∷ content ∷ []);
      pipeline_url = string_from pipeline_url_key (custom ∷ content ∷ []);
      deployed_at = e.context.timestamp;
      deployed_by = string_from deployer_keys (custom ∷ content ∷ []);
      event_id = e.context.id;
      chain_id = e.context.chain_id;
      links = e.context.links;
    }

unfoldable pub run_status : String → String
run_status kind =
    if kind == kind_pipeline_run_queued
    then "queued"
    else if kind == kind_pipeline_run_started
    then "started"
    else if kind == kind_pipeline_run_finish
    then "finished"
    else "unknown"

unfoldable pub incident_status : String → String
incident_status kind =
    if kind == kind_incident_detected
    then "detected"
    else if kind == kind_incident_reported
    then "reported"
    else if kind == kind_incident_resolved
    then "resolved"
    else "unknown"

unfoldable pub to_incident : CdEvent → Incident
unfolding incident_status
to_incident e =
    let content = e.subject.content in
    let custom = e.custom_data in
    let status = incident_status (short_type e.context.type) in
    record {
      id = e.subject.id;
      service = first_non_empty (
          get_nested_string content ("service" ∷ "name" ∷ [])
          ∷ identity_from service_keys (content ∷ custom ∷ [])
          ∷ []);
      environment = first_non_empty (
          get_nested_string content ("environment" ∷ "id" ∷ [])
          ∷ identity_from ("environment" ∷ []) (content ∷ custom ∷ [])
          ∷ []);
      severity = string_from severity_keys (content ∷ custom ∷ []);
      description = string_from desc_keys (content ∷ custom ∷ []);
      status = status;
      detected_at = e.context.timestamp;
      resolved_at = if status == "resolved" then some e.context.timestamp else none;
      root_cause = "";
      event_id = e.context.id;
      chain_id = e.context.chain_id;
      deployment_id = "";
      links = e.context.links;
      linked_deployment = none;
    }

-- `time.Parse(time.RFC3339, value)` of the standard library, `none` where it returns an error.
module _ (parse_rfc3339 : String → Option Time) where
  unfoldable pub parse_time_or : String → Time → Time
  parse_time_or value fallback =
      if is_empty value
      then fallback
      else elim (parse_rfc3339 value) [ some t ↦ t | none ↦ fallback ]

  unfoldable pub to_pipeline_run : CdEvent → PipelineRun
  unfolding parse_time_or run_status
  to_pipeline_run e =
      let content = e.subject.content in
      let custom = e.custom_data in
      let status = run_status (short_type e.context.type) in
      record {
        id = e.subject.id;
        pipeline_name =
            first_non_empty
              (get_string_field content "pipelineName" ∷ get_string_field content "name" ∷ []);
        status = status;
        outcome = string_from outcome_keys (content ∷ custom ∷ []);
        started_at = parse_time_or (get_string_field content "startTime") e.context.timestamp;
        finished_at =
            if status == "finished"
            then some (parse_time_or (get_string_field content "endTime") e.context.timestamp)
            else none;
        source = e.context.source;
        pipeline_url = first_non_empty (
            get_string_field content "url"
            ∷ string_from pipeline_url_key (custom ∷ content ∷ [])
            ∷ []);
        commit_sha = string_from commit_keys (custom ∷ content ∷ []);
        branch = string_from branch_keys (custom ∷ content ∷ []);
        repository = identity_from repository_keys (custom ∷ content ∷ []);
        author = string_from author_keys (custom ∷ content ∷ []);
        event_id = e.context.id;
        chain_id = e.context.chain_id;
        links = e.context.links;
      }
