-- ===== src/Storage/Tests.antt =====
-- The theorems on the storage at concrete writes.
use cdevents_otel_bridge.Dict.Samples.{in_order}
use cdevents_otel_bridge.Prelude.{
  false_not_true, ℕ, arith, String, List, [], ◌∷◌, ◌≡◌, refl, none, some, ◌<>◌, eq_iff,
}
use cdevents_otel_bridge.Prelude.Int.{pos}
use cdevents_otel_bridge.Errors.{ok, err, not_found}
use cdevents_otel_bridge.Time.{zero_time}
use cdevents_otel_bridge.Models.{Deployment}
use cdevents_otel_bridge.Cdevents.{StoredEvent}
use cdevents_otel_bridge.Storage.{ListFilter, apply_filter}
use cdevents_otel_bridge.Storage.Filter.{IsListing, apply_filter-IsListing}
use cdevents_otel_bridge.Storage.Memory.{
  MemoryStorage, new_memory_storage, nul, save_deployment, get_deployment, get_latest_deployment,
  get_events_by_chain,
}
use cdevents_otel_bridge.Storage.Memory.Keys.{HasNoNul}
use cdevents_otel_bridge.Storage.Memory.Lookups.{
  live, Write, deployment, event, replay, last_deployment, get_deployment_collision,
  get_deployment_refines,
}
use cdevents_otel_bridge.Storage.Memory.Listing.{
  IsLatest, IsChainListing, get_latest_deployment-IsLatest, get_events_by_chain-IsChainListing,
}

abbrev deployment_of : String → String → ℕ → Deployment
deployment_of service environment deployed_at = record {
  id = service;
  service = service;
  version = "1.0.0";
  environment = environment;
  commit_sha = "";
  repository = "";
  branch = "";
  author = "";
  pipeline_id = "";
  pipeline_url = "";
  deployed_at = deployed_at;
  deployed_by = "";
  event_id = "e";
  chain_id = "";
  links = [];
}

abbrev event_of : String → ℕ → StoredEvent
event_of id timestamp = record {
  id = id;
  type = "dev.cdevents.service.deployed.0.1.1";
  source = "ci";
  timestamp = timestamp;
  subject_id = "cart";
  subject_type = "service";
  chain_id = "chain";
  links = [];
  summary = "";
  raw_data = none;
}

abbrev in_prod : Deployment
in_prod = deployment_of "s" "prod" 20

abbrev in_test : Deployment
in_test = deployment_of "s" "test" 30

abbrev writes : List Write
writes =
    deployment in_prod ∷ deployment in_test ∷ event (event_of "a" 1) ∷ event (event_of "b" 2) ∷ []

abbrev two_of_each : MemoryStorage
two_of_each = replay new_memory_storage writes

service-HasNoNul : HasNoNul "s"
service-HasNoNul = (λ e. absurd (omega (arith, e)), tt)

abbrev newest : ListFilter
newest = record { environment = ""; since = zero_time; limit = pos 1 }

apply_filter-IsListing_example :
    IsListing (in_prod ∷ in_test ∷ []) newest (apply_filter (in_prod ∷ in_test ∷ []) newest)
apply_filter-IsListing_example = apply_filter-IsListing (in_prod ∷ in_test ∷ []) newest

abbrev misnamed : Deployment
misnamed = deployment_of ("a" <> nul <> "b") "c" 5

get_deployment_collision_example :
    get_deployment
      (save_deployment new_memory_storage live (some misnamed)).1
      live
      "a"
      ("b" <> nul <> "c")
    ≡ ok misnamed
get_deployment_collision_example =
    get_deployment_collision new_memory_storage misnamed "a" "b" "c" refl refl

get_deployment_refines_example :
    get_deployment two_of_each live "s" "test" ≡ last_deployment (err not_found) writes "s" "test"
get_deployment_refines_example =
    get_deployment_refines writes "s" "test" service-HasNoNul
      (service-HasNoNul, (service-HasNoNul, (tt, (tt, tt))))

get_latest_deployment-IsLatest_example :
    IsLatest two_of_each "s" (get_latest_deployment in_order two_of_each live "s")
get_latest_deployment-IsLatest_example = get_latest_deployment-IsLatest in_order two_of_each "s"

abbrev one_deployment : MemoryStorage
one_deployment = (save_deployment new_memory_storage live (some in_prod)).1

get_events_by_chain-IsChainListing_example :
    (result : List StoredEvent) × (get_events_by_chain in_order two_of_each live "chain"
      ≡ ok result)
    × IsChainListing two_of_each "chain" result
get_events_by_chain-IsChainListing_example =
    get_events_by_chain-IsChainListing in_order two_of_each "chain"
      (λ e. absurd (false_not_true ((eq_iff "chain" "").1 e)))
