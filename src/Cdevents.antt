-- ===== src/Cdevents.antt =====
-- The package internal/cdevents: the event types (types.go), and below it the field lookups, links,
-- validation and parsing of the other files.
pub mod ShortType
pub mod Fields
pub mod ArtifactVersion
pub mod Links
pub mod Validator
pub mod Parser
mod Tests
use cdevents_otel_bridge.Prelude.{String, List}
use cdevents_otel_bridge.Time.{Time}
use cdevents_otel_bridge.Models.{Link}
use cdevents_otel_bridge.Models.Json.{Map}

pub record EventContext : Type 0 where
  pub version : String
  pub id : String
  pub source : String
  pub type : String
  pub timestamp : Time
  pub chain_id : String
  pub links : List Link

pub record EventSubject : Type 0 where
  pub id : String
  pub source : String
  pub type : String
  pub content : Map

pub record CdEvent : Type 0 where
  pub context : EventContext
  pub subject : EventSubject
  pub custom_data : Map
  pub links : List Link

pub record StoredEvent : Type 0 where
  pub id : String
  pub type : String
  pub source : String
  pub timestamp : Time
  pub subject_id : String
  pub subject_type : String
  pub chain_id : String
  pub links : List Link
  pub summary : String
  pub raw_data : Map

-- types.go: the kinds of event that the bridge knows
abbrev pub kind_service_deployed : String
kind_service_deployed = "service.deployed"

abbrev pub kind_service_upgraded : String
kind_service_upgraded = "service.upgraded"

abbrev pub kind_service_rolledback : String
kind_service_rolledback = "service.rolledback"

abbrev pub kind_pipeline_run_queued : String
kind_pipeline_run_queued = "pipelinerun.queued"

abbrev pub kind_pipeline_run_started : String
kind_pipeline_run_started = "pipelinerun.started"

abbrev pub kind_pipeline_run_finish : String
kind_pipeline_run_finish = "pipelinerun.finished"

abbrev pub kind_change_merged : String
kind_change_merged = "change.merged"

abbrev pub kind_incident_detected : String
kind_incident_detected = "incident.detected"

abbrev pub kind_incident_reported : String
kind_incident_reported = "incident.reported"

abbrev pub kind_incident_resolved : String
kind_incident_resolved = "incident.resolved"
