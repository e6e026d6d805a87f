-- ===== src/Cdevents/Tests.antt =====
-- Runs of the definitions of internal/cdevents on inputs of the repository's own tests, and the
-- theorems at concrete inputs.
use cdevents_otel_bridge.Prelude.{String, [], ◌∷◌, ◌++◌, ◌≡◌, refl, ◌↔◌, Option, some, none}
use cdevents_otel_bridge.Time.{Time}
use cdevents_otel_bridge.Models.{Link}
use cdevents_otel_bridge.Models.Json.{str, obj, field, end}
use cdevents_otel_bridge.Cdevents.{CdEvent}
use cdevents_otel_bridge.Cdevents.Links.{merge_links}
use cdevents_otel_bridge.Cdevents.Links.Laws.{IsCanonical, merge_links-IsCanonical}
use cdevents_otel_bridge.Cdevents.Validator.{validate}
use cdevents_otel_bridge.Cdevents.Validator.Laws.{IsComplete, validate_iff}
use cdevents_otel_bridge.Cdevents.Parser.{to_deployment}
use cdevents_otel_bridge.Cdevents.Parser.Summary.{to_stored_event, extract_change_info}
use cdevents_otel_bridge.Cdevents.Parser.ChangeInfo.{extract_change_info-to_stored_event}
use cdevents_otel_bridge.Cdevents.ShortType.{short_type}
use cdevents_otel_bridge.Cdevents.ArtifactVersion.{version_from_artifact_id}

short_type_tests :
    (short_type "dev.cdevents.service.deployed.0.1.1" ≡ "service.deployed")
    × (short_type "service.deployed.v1" ≡ "service.deployed")
    × (short_type "custom.event" ≡ "custom.event")
    × (short_type "unknown" ≡ "unknown")
    × (short_type "" ≡ "")
unfolding short_type
short_type_tests = (refl, refl, refl, refl, refl)

version_tests :
    (version_from_artifact_id "pkg:oci/app@v1.2.3" ≡ "v1.2.3")
    × (version_from_artifact_id "my-app-1.2.3-rc.1" ≡ "1.2.3-rc.1")
    × (version_from_artifact_id "registry/app:v2" ≡ "v2")
    × (version_from_artifact_id "pkg:oci/app" ≡ "")
    × (version_from_artifact_id "app" ≡ "")
unfolding version_from_artifact_id
version_tests = (refl, refl, refl, refl, refl)

abbrev link : String → String → Link
link link_type link_id = record { link_id = link_id; link_type = link_type }

-- a deployment of version 1.2.3 to prod, which names its commit in its custom data
abbrev deployed : CdEvent
deployed = record {
  context = record {
    version = "0.4.1";
    id = "event";
    source = "ci";
    type = "dev.cdevents.service.deployed.0.1.1";
    timestamp = 5;
    chain_id = "";
    links = link "PATH" "build" ∷ link "PATH" "build" ∷ link "END" "" ∷ [];
  };
  subject = record {
    id = "cart";
    source = "";
    type = "service";
    content = some (
        field "artifactId" (str "pkg:oci/cart@v1.2.3")
          (field "environment" (obj (field "id" (str "prod") end)) end));
  };
  custom_data = some (field "commit" (str "abc") end);
  links = link "PATH" "build" ∷ link "RELATION" "build" ∷ [];
}

abbrev unnamed : CdEvent
unnamed = record deployed { context = record deployed.context { id = "" } }

validate_iff_example : (validate (some deployed) ≡ none) ↔ IsComplete deployed
validate_iff_example = validate_iff deployed

merge_links-IsCanonical_example :
    IsCanonical
      (deployed.context.links ++ deployed.links)
      (merge_links deployed.context.links deployed.links)
merge_links-IsCanonical_example = merge_links-IsCanonical deployed.context.links deployed.links

abbrev no_times : String → Option Time
no_times text = none

extract_change_info-to_stored_event_example :
    ((extract_change_info (to_stored_event no_times deployed)).commit
      ≡ (to_deployment deployed).commit_sha)
    × ((extract_change_info (to_stored_event no_times deployed)).repository
        ≡ (to_deployment deployed).repository)
    × ((extract_change_info (to_stored_event no_times deployed)).author
        ≡ (to_deployment deployed).author)
extract_change_info-to_stored_event_example = extract_change_info-to_stored_event no_times deployed
