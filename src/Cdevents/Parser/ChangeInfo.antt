-- ===== src/Cdevents/Parser/ChangeInfo.antt =====
-- parser.go: what `ExtractChangeInfo` reads back out of a stored event is what `ToDeployment` reads
-- out of the event itself.
use cdevents_otel_bridge.Prelude.{String, List, [], ◌∷◌, ◌≡◌, refl, Option, none, some}
use cdevents_otel_bridge.Time.{Time}
use cdevents_otel_bridge.Models.Json.{Map, Fields, get, obj, field, end}
use cdevents_otel_bridge.Cdevents.{CdEvent, StoredEvent}
use cdevents_otel_bridge.Cdevents.Fields.{
  string_from, string_from_keys, get_string_field, identity_from, identity_from_keys, as_string,
}
use cdevents_otel_bridge.Cdevents.Parser.{to_deployment, commit_keys, repository_keys, author_keys}
use cdevents_otel_bridge.Cdevents.Parser.Summary.{
  ChangeInfo, to_stored_event, extract_change_info, raw_data_of,
}

-- where the outer map has none of the keys
string_from_flat :
    (keys : List String) (custom content flat : Map)
    → string_from_keys flat keys ≡ ""
    → string_from keys (custom ∷ content ∷ flat ∷ []) ≡ string_from keys (custom ∷ content ∷ [])
unfolding string_from
string_from_flat keys custom content flat h = rw h refl

identity_from_flat :
    (keys : List String) (custom content : Map) (flat : Fields)
    → identity_from_keys flat keys ≡ ""
    → identity_from keys (custom ∷ content ∷ some flat ∷ [])
      ≡ identity_from keys (custom ∷ content ∷ [])
unfolding identity_from
identity_from_flat keys none none flat h = rw h refl
identity_from_flat keys (some a) none flat h = rw h refl
identity_from_flat keys none (some b) flat h = rw h refl
identity_from_flat keys (some a) (some b) flat h = rw h refl

-- What is read out of raw data that holds two maps is read out of the two maps.
abbrev IsReadBack : ChangeInfo → Map → Map → Type 0
IsReadBack info content custom =
    (info.commit ≡ string_from commit_keys (custom ∷ content ∷ []))
    × (info.repository ≡ identity_from repository_keys (custom ∷ content ∷ []))
    × (info.author ≡ string_from author_keys (custom ∷ content ∷ []))

flat_fields :
    (custom content : Map) (flat : Fields)
    → string_from_keys (some flat) commit_keys ≡ ""
    → identity_from_keys flat repository_keys ≡ ""
    → string_from_keys (some flat) author_keys ≡ ""
    → (string_from commit_keys (custom ∷ content ∷ some flat ∷ [])
        ≡ string_from commit_keys (custom ∷ content ∷ []))
      × (identity_from repository_keys (custom ∷ content ∷ some flat ∷ [])
          ≡ identity_from repository_keys (custom ∷ content ∷ []))
      × (string_from author_keys (custom ∷ content ∷ some flat ∷ [])
          ≡ string_from author_keys (custom ∷ content ∷ []))
flat_fields custom content flat c r a = (
  string_from_flat commit_keys custom content (some flat) c,
  identity_from_flat repository_keys custom content flat r,
  string_from_flat author_keys custom content (some flat) a,
)

read_back :
    (e : StoredEvent) (content custom : Map)
    → e.raw_data ≡ raw_data_of content custom
    → IsReadBack (extract_change_info e) content custom
unfolding extract_change_info raw_data_of get string_from identity_from string_from_keys
    identity_from_keys get_string_field as_string
read_back e none none h = rw (h, extract_change_info) (refl, refl, refl)
read_back e (some a) none h =
    rw (h, extract_change_info)
      (flat_fields none (some a) (field "content" (obj a) end) refl refl refl)
read_back e none (some b) h =
    rw (h, extract_change_info)
      (flat_fields (some b) none (field "customData" (obj b) end) refl refl refl)
read_back e (some a) (some b) h =
    rw (h, extract_change_info)
      (flat_fields (some b) (some a) (field "content" (obj a) (field "customData" (obj b) end)) refl
        refl refl)

-- The commit, the repository and the author that `ExtractChangeInfo` finds in the stored form of an
-- event are those of the event's deployment.
pub extract_change_info-to_stored_event :
    (parse_rfc3339 : String → Option Time) (e : CdEvent)
    → ((extract_change_info (to_stored_event parse_rfc3339 e)).commit
        ≡ (to_deployment e).commit_sha)
      × ((extract_change_info (to_stored_event parse_rfc3339 e)).repository
          ≡ (to_deployment e).repository)
      × ((extract_change_info (to_stored_event parse_rfc3339 e)).author ≡ (to_deployment e).author)
unfolding extract_change_info to_stored_event to_deployment raw_data_of
extract_change_info-to_stored_event parse_rfc3339 e =
    read_back (to_stored_event parse_rfc3339 e) e.subject.content e.custom_data refl
