-- ===== src/Cdevents/Parser/Summary.antt =====
-- parser.go: `Summarize`, `predicateVerb`, `ToStoredEvent`, `ExtractChangeInfo` and `Parse`.
use cdevents_otel_bridge.Prelude.{
  ℕ, String, List, [], ◌∷◌, ◌++◌, Option, none, some, ◌||◌, ◌==◌, ◌<>◌, is_empty, if◌then◌else◌,
}
use cdevents_otel_bridge.Errors.{Result, ok, err, wrap}
use cdevents_otel_bridge.Text.{cut, join}
use cdevents_otel_bridge.Time.{Time}
use cdevents_otel_bridge.Models.Json.{Json, obj, end, field, Map, get}
use cdevents_otel_bridge.Cdevents.{
  CdEvent, StoredEvent, kind_pipeline_run_queued, kind_pipeline_run_started,
  kind_pipeline_run_finish, kind_change_merged, kind_incident_detected, kind_incident_reported,
  kind_incident_resolved,
}
use cdevents_otel_bridge.Cdevents.ShortType.{short_type, is_deployment_kind}
use cdevents_otel_bridge.Cdevents.Fields.{string_from, identity_from, first_non_empty}
use cdevents_otel_bridge.Cdevents.Links.{normalize_links}
use cdevents_otel_bridge.Cdevents.Parser.{
  to_deployment, to_pipeline_run, to_incident, commit_keys, author_keys, message_keys,
  repository_keys,
}

unfoldable pub predicate_verb : String → String
predicate_verb predicate =
    if predicate == "deployed"
    then "Deployed"
    else if predicate == "upgraded"
    then "Upgraded"
    else if predicate == "rolledback"
    then "Rolled back"
    else predicate

-- `if v != "" { parts = append(parts, before..., v) }`
abbrev pub when_given : String → List String → List String
when_given v parts = if is_empty v then [] else parts

unfoldable pub deployment_summary : CdEvent → String → String
unfolding predicate_verb
deployment_summary e predicate =
    let d = to_deployment e in
    join
      ((predicate_verb predicate ∷ d.service ∷ [])
        ++ (when_given d.version (d.version ∷ [])
            ++ when_given d.environment ("to" ∷ d.environment ∷ [])))
      " "

unfoldable pub change_summary : CdEvent → String
change_summary e =
    let author = string_from author_keys (e.custom_data ∷ e.subject.content ∷ []) in
    let summary = "Merged change " <> e.subject.id in
    if is_empty author then summary else summary <> " by " <> author

unfoldable pub incident_summary : CdEvent → String → String
incident_summary e predicate =
    let inc = to_incident e in
    let summary = "Incident " <> predicate in
    if is_empty inc.description
    then (if is_empty inc.id then summary else summary <> ": " <> inc.id)
    else summary <> ": " <> inc.description

unfoldable pub other_summary : CdEvent → String → String → String
other_summary e subject_type predicate =
    if is_empty e.subject.id
    then subject_type <> " " <> predicate
    else subject_type <> " " <> predicate <> ": " <> e.subject.id

-- rawData
unfoldable pub raw_data_of : Map → Map → Map
raw_data_of none none = none
raw_data_of (some content) none = some (field "content" (obj content) end)
raw_data_of none (some custom) = some (field "customData" (obj custom) end)
raw_data_of (some content) (some custom) =
    some (field "content" (obj content) (field "customData" (obj custom) end))

pub record ChangeInfo : Type 0 where
  pub commit : String
  pub author : String
  pub message : String
  pub repository : String

-- v, _ := val.(map[string]any)
abbrev pub as_map : Option Json → Map
as_map (some (obj m)) = some m
as_map _ = none

unfoldable pub extract_change_info : StoredEvent → ChangeInfo
extract_change_info e = elim e.raw_data [
  | none ↦ record { commit = ""; author = ""; message = ""; repository = "" }
  | some flat ↦
      let maps = as_map (get flat "customData") ∷ as_map (get flat "content") ∷ some flat ∷ [] in
      record {
        commit = string_from commit_keys maps;
        author = string_from author_keys maps;
        message = string_from message_keys maps;
        repository = identity_from repository_keys maps;
      }
]

module _ (parse_rfc3339 : String → Option Time) where
  unfoldable pub pipeline_summary : CdEvent → String → String
  pipeline_summary e predicate =
      let run = to_pipeline_run parse_rfc3339 e in
      let name = first_non_empty (run.pipeline_name ∷ run.id ∷ []) in
      let summary = "Pipeline " <> name <> " " <> predicate in
      if is_empty run.outcome then summary else summary <> " (" <> run.outcome <> ")"

  unfoldable pub summarize : CdEvent → String
  summarize e =
      let kind = short_type e.context.type in
      let (subject_type, predicate) = cut b'.' kind in
      if is_deployment_kind kind
      then deployment_summary e predicate
      else if kind == kind_pipeline_run_queued
          || kind == kind_pipeline_run_started
          || kind == kind_pipeline_run_finish
      then pipeline_summary e predicate
      else if kind == kind_change_merged
      then change_summary e
      else if kind == kind_incident_detected
          || kind == kind_incident_reported
          || kind == kind_incident_resolved
      then incident_summary e predicate
      else other_summary e subject_type predicate

  unfoldable pub to_stored_event : CdEvent → StoredEvent
  unfolding raw_data_of
  to_stored_event e = record {
    id = e.context.id;
    type = e.context.type;
    source = e.context.source;
    timestamp = e.context.timestamp;
    subject_id = e.subject.id;
    subject_type = e.subject.type;
    chain_id = e.context.chain_id;
    links = e.context.links;
    summary = summarize e;
    raw_data = raw_data_of e.subject.content e.custom_data;
  }

-- `json.Unmarshal(data, &event)`, which the standard library does; the bytes of the body are a
-- list.
module _ (unmarshal : List ℕ → Result CdEvent) where
  unfoldable pub parse : List ℕ → Result CdEvent
  parse body = elim (unmarshal body) [
    | ok event ↦ ok (normalize_links event)
    | err e ↦ err (wrap "failed to unmarshal CDEvent: " e "")
  ]
