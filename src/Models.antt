-- ===== src/Models.antt =====
-- The data models: pkg/models/deployment.go, pipeline.go, incident.go and event_chain.go.
-- A pointer that may be nil is an `Option`. A nil slice and an empty slice are both `[]`: every
-- slice field of these structs is written with `omitempty` or made non-nil, and no code tests one
-- for nil.
pub mod Json
pub mod Decoding
pub mod Durations
use cdevents_otel_bridge.Prelude.{String, Option, List}
use cdevents_otel_bridge.Time.{Time}

pub record Link : Type 0 where
  pub link_type : String
  pub link_id : String

pub record Deployment : Type 0 where
  pub id : String
  pub service : String
  pub version : String
  pub environment : String
  pub commit_sha : String
  pub repository : String
  pub branch : String
  pub author : String
  pub pipeline_id : String
  pub pipeline_url : String
  pub deployed_at : Time
  pub deployed_by : String
  pub event_id : String
  pub chain_id : String
  pub links : List Link

pub record PipelineRun : Type 0 where
  pub id : String
  pub pipeline_name : String
  pub status : String
  pub outcome : String
  pub started_at : Time
  pub finished_at : Option Time
  pub source : String
  pub pipeline_url : String
  pub commit_sha : String
  pub branch : String
  pub repository : String
  pub author : String
  pub event_id : String
  pub chain_id : String
  pub links : List Link

pub record Incident : Type 0 where
  pub id : String
  pub service : String
  pub environment : String
  pub severity : String
  pub description : String
  pub status : String
  pub detected_at : Time
  pub resolved_at : Option Time
  pub root_cause : String
  pub event_id : String
  pub chain_id : String
  pub deployment_id : String
  pub links : List Link
  pub linked_deployment : Option Deployment

pub record ChainEvent : Type 0 where
  pub id : String
  pub event_type : String
  pub timestamp : Time
  pub summary : String
  pub commit : String
  pub links : List Link

pub record RootCause : Type 0 where
  pub commit : String
  pub author : String
  pub message : String
  pub repository : String

pub record EventChain : Type 0 where
  pub chain_id : String
  pub start_event : String
  pub events : List ChainEvent
  pub root_cause : Option RootCause
