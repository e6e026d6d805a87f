-- ===== src/Otelbridge/Tests.antt =====
-- The theorems on the cached resolver and the attributes at concrete calls.
use mathlib.Core.List.Memᴰ
use cdevents_otel_bridge.Dict.Samples.{in_order}
use cdevents_otel_bridge.Prelude.{◌*◌, String, [], ◌∷◌, ◌≡◌, refl, none, some, arith}
use cdevents_otel_bridge.Errors.{plain, resolver_not_found, is_resolver_not_found}
use cdevents_otel_bridge.Dict
use cdevents_otel_bridge.Time.{Time, second}
use cdevents_otel_bridge.Models.{Deployment}
use cdevents_otel_bridge.Otelbridge.{Answer, failure}
use cdevents_otel_bridge.Otelbridge.Resolver.{
  CachedResolver, new_cached_resolver, Pending, miss, begin, finish, resolve_deployment,
}
use cdevents_otel_bridge.Otelbridge.Resolver.Hits.{
  resolve_deployment_reuses, resolve_deployment_serves_stale,
}
use cdevents_otel_bridge.Otelbridge.Resolver.Steps.{
  World, ask, return_answer, IsReachable, start, next, IsJustified,
}
use cdevents_otel_bridge.Otelbridge.Resolver.Steps.Justified.{returned-IsJustified}
use cdevents_otel_bridge.Dict.{MapRange}
use cdevents_otel_bridge.Storage.Memory.{
  MemoryStorage, new_memory_storage, save_deployment, get_latest_deployment,
}
use cdevents_otel_bridge.Storage.Memory.Lookups.{live}
use cdevents_otel_bridge.Otelbridge.{storage_resolve}
use cdevents_otel_bridge.Otelbridge.Latest.{IsResolved, storage_resolve-IsResolved}

abbrev cart : Deployment
cart = record {
  id = "cart";
  service = "cart";
  version = "1.0.0";
  environment = "prod";
  commit_sha = "";
  repository = "";
  branch = "";
  author = "";
  pipeline_id = "";
  pipeline_url = "";
  deployed_at = 5;
  deployed_by = "";
  event_id = "e";
  chain_id = "";
  links = [];
}

abbrev success : Answer
success = record { deployment = some cart; err = none }

abbrev finds : String → Answer
finds service = success

abbrev finds_nothing : String → Answer
finds_nothing service = failure resolver_not_found

abbrev fails : String → Answer
fails service = failure (plain "timeout")

abbrev fresh : CachedResolver
fresh = new_cached_resolver []

abbrev asked : Pending
asked = record { service = "cart"; now = 100; entry = none }

first_call : begin fresh 100 "cart" ≡ miss asked
unfolding begin new_cached_resolver Dict.get
first_call = refl

resolve_deployment_reuses_example :
    resolve_deployment (resolve_deployment fresh finds 100 "cart").1 fails 200 "cart"
    ≡ (success, (resolve_deployment fresh finds 100 "cart").1)
unfolding new_cached_resolver
resolve_deployment_reuses_example =
    resolve_deployment_reuses fresh finds 100 "cart" asked first_call (some cart) fails 200 refl
      (omega arith)

resolve_deployment_serves_stale_example :
    resolve_deployment (resolve_deployment fresh finds 100 "cart").1 fails (90 * second) "cart"
    ≡ (success, (resolve_deployment fresh finds 100 "cart").1)
unfolding is_resolver_not_found
resolve_deployment_serves_stale_example =
    resolve_deployment_serves_stale fresh finds 100 "cart" asked first_call (some cart) fails
      (plain "timeout") (90 * second) refl refl refl

-- one call, from its start to its answer
abbrev answered : World
answered = record {
  resolver = (finish fresh asked success).1;
  pending = [];
  asked = ("cart", success) ∷ [];
  returned = ("cart", (finish fresh asked success).0) ∷ [];
}

answered-IsReachable : IsReachable [] answered
answered-IsReachable =
    next (next start (ask 100 "cart" asked first_call)) (return_answer [] [] asked success refl)

returned-IsJustified_example : IsJustified answered.asked "cart" success
unfolding finish
returned-IsJustified_example =
    returned-IsJustified [] answered "cart" success answered-IsReachable (Memᴰ.head refl)

abbrev text_of : Time → String
text_of t = "2024-01-01T00:00:00Z"

abbrev holds_cart : MemoryStorage
holds_cart = (save_deployment new_memory_storage live (some cart)).1

storage_resolve-IsResolved_example :
    IsResolved holds_cart "cart"
      (storage_resolve (get_latest_deployment in_order holds_cart live "cart"))
storage_resolve-IsResolved_example = storage_resolve-IsResolved in_order holds_cart "cart"
