-- ===== src/Storage/Redis/Tests.antt =====
-- The theorems on redis.go at a concrete server and concrete writes.
use cdevents_otel_bridge.Prelude.{
  ℕ, String, List, [], ◌∷◌, some, ◌≡◌, ◌≢◌, refl, ◌<>◌, ◌==◌, eq_iff, false_not_true, Memᴰ, ◌↔◌,
  arith, if◌then◌else◌,
}
use cdevents_otel_bridge.Prelude.Int.{pos}
use cdevents_otel_bridge.Errors.{ok}
use cdevents_otel_bridge.Text.Separators.{HasNo}
use cdevents_otel_bridge.Time.{zero_time}
use cdevents_otel_bridge.Models.{Deployment}
use cdevents_otel_bridge.Cdevents.{StoredEvent}
use cdevents_otel_bridge.Storage.{ListFilter}
use cdevents_otel_bridge.Storage.Filter.{IsListing}
use cdevents_otel_bridge.Storage.Memory
use cdevents_otel_bridge.Storage.Memory.{new_memory_storage}
use cdevents_otel_bridge.Storage.Memory.Keys.{HasNoNul}
use cdevents_otel_bridge.Storage.Memory.Lookups
use cdevents_otel_bridge.Storage.Memory.Lookups.{live, Write, deployment, event}
use cdevents_otel_bridge.Storage.Redis.{
  Codec, RedisStorage, save_deployment, save_event, get_deployment, get_latest_deployment,
  list_deployments, get_event, get_events_by_chain, redis_deployment_key,
}
use cdevents_otel_bridge.Storage.Redis.Server.{Encodes}
use cdevents_otel_bridge.Storage.Redis.Keys.{IsPlain}
use cdevents_otel_bridge.Storage.Redis.Invariant.{IsValid, new-IsValid}
use cdevents_otel_bridge.Storage.Redis.Lookups.{get_deployment_saved}
use cdevents_otel_bridge.Storage.Redis.Replay.{
  replay, apply, apply-IsValid, backends_agree, get_deployment_collides,
}
use cdevents_otel_bridge.Sorting.Pairs.{Pairwise}
use cdevents_otel_bridge.Storage.Order.{IsNewerEvent}
use cdevents_otel_bridge.Storage.Redis.Scanning.{finds}
use cdevents_otel_bridge.Storage.Redis.{read_deployment, deployment_key_prefix, chain_key_prefix}
use cdevents_otel_bridge.Prelude.{Permᴰ}
use cdevents_otel_bridge.Storage.Redis.Listing.{IsStored, list_deployments_exact}
use cdevents_otel_bridge.Storage.Redis.Agreement.{latest_agrees}
use cdevents_otel_bridge.Dict.Samples.{in_order}
use cdevents_otel_bridge.Storage.Redis.Chains.{
  InChain, get_events_by_chain_exact, get_events_by_chain_keeps,
}
use cdevents_otel_bridge.Storage.Redis.Sample.{
  Sample, sample_client, sample_server, sample-IsReached, new_sample, new_sample-IsNew,
  sample_pages,
}
use cdevents_otel_bridge.Storage.Redis.Codes.{
  two_records, same_texts, deployment_from, event_from, same_deployment, same_event,
}

abbrev deployment_of : String → String → ℕ → Deployment
deployment_of service environment deployed_at =
    deployment_from ("d" ∷ service ∷ "1.0.0" ∷ environment ∷ []) deployed_at

abbrev event_of : String → ℕ → StoredEvent
event_of chain_id timestamp =
    event_from
      ("e" ∷ "dev.cdevents.service.deployed.0.1.1" ∷ "ci" ∷ "cart" ∷ "service" ∷ chain_id ∷ [])
      timestamp

abbrev in_prod : Deployment
in_prod = deployment_of "cart" "prod" 5

-- its service shares its keys with the service `a`
abbrev with_colon : Deployment
with_colon = deployment_of "a:b" "c" 7

abbrev first_event : StoredEvent
first_event = event_of "one" 1

abbrev second_event : StoredEvent
second_event = event_of "two" 2

abbrev deployments : Codec Deployment
deployments = two_records same_deployment in_prod with_colon

abbrev events : Codec StoredEvent
events = two_records same_event first_event second_event

abbrev empty_storage : RedisStorage Sample
empty_storage = record { server = new_sample; ttl = pos 86400000000000 }

empty-IsValid : IsValid sample_client sample_server deployments events new_sample
empty-IsValid =
    new-IsValid sample_client sample_server deployments events new_sample new_sample-IsNew

abbrev writes : List Write
writes = deployment in_prod ∷ event first_event ∷ event second_event ∷ []

prod-code : Encodes deployments in_prod "1"
unfolding same_texts
prod-code = (refl, refl)

first-code : Encodes events first_event "1"
unfolding same_texts
first-code = (refl, refl)

second-code : Encodes events second_event "2"
unfolding same_texts
second-code = (refl, refl)

colon-code : Encodes deployments with_colon "2"
unfolding same_texts
colon-code = (refl, refl)

cart-IsPlain : IsPlain "cart"
cart-IsPlain = (ground arith, ground arith)

prod-HasNo_percent : HasNo b'%' "prod"
prod-HasNo_percent = ground arith

cart-HasNoNul : HasNoNul "cart"
cart-HasNoNul = ground arith

abbrev saved : RedisStorage Sample
saved = (save_deployment sample_client deployments empty_storage live (some in_prod)).1

saved-IsValid : IsValid sample_client sample_server deployments events saved.server
unfolding apply
saved-IsValid =
    apply-IsValid sample_client deployments events sample_server sample-IsReached empty_storage
      (deployment in_prod) ("1", prod-code) empty-IsValid

apply-IsValid_example :
    IsValid sample_client sample_server deployments events
      (apply sample_client deployments events empty_storage (event first_event)).server
apply-IsValid_example =
    apply-IsValid sample_client deployments events sample_server sample-IsReached empty_storage
      (event first_event) ("1", first-code) empty-IsValid

backends_agree_example :
    (get_deployment sample_client deployments
        (replay sample_client deployments events empty_storage writes)
        live
        "cart"
        "prod"
      ≡ Memory.get_deployment (Lookups.replay new_memory_storage writes) live "cart" "prod")
    × (get_event sample_client events
          (replay sample_client deployments events empty_storage writes)
          live
          "e"
        ≡ Memory.get_event (Lookups.replay new_memory_storage writes) live "e")
backends_agree_example =
    backends_agree sample_client deployments events sample_server sample-IsReached empty_storage
      writes "cart" "prod" "e" new_sample-IsNew
      (("1", prod-code), (("1", first-code), (("2", second-code), tt)))
      ((cart-IsPlain, prod-HasNo_percent), (tt, (tt, tt))) (cart-HasNoNul, (tt, (tt, tt)))
      cart-IsPlain prod-HasNo_percent cart-HasNoNul

get_deployment_collides_example :
    get_deployment sample_client deployments
      (save_deployment sample_client deployments empty_storage live (some with_colon)).1
      live
      "a"
      ("b" <> ":" <> "c")
    ≡ ok with_colon
get_deployment_collides_example =
    get_deployment_collides sample_client deployments events sample_server sample-IsReached
      empty_storage with_colon "2" "a" "b" empty-IsValid colon-code refl

get_deployment_saved_sample : get_deployment sample_client deployments saved live "cart" "prod" ≡ (
    if redis_deployment_key "cart" "prod" == redis_deployment_key "cart" "prod"
    then ok in_prod
    else get_deployment sample_client deployments empty_storage live "cart" "prod")
get_deployment_saved_sample =
    get_deployment_saved sample_client sample_server sample-IsReached deployments events
      empty_storage in_prod "1" "cart" "prod" empty-IsValid prod-code

latest_agrees_example :
    get_latest_deployment sample_client deployments 1
      (replay sample_client deployments events empty_storage writes)
      live
      "cart"
    ≡ some (
        Memory.get_latest_deployment in_order
          (Lookups.replay new_memory_storage writes)
          live
          "cart")
latest_agrees_example =
    latest_agrees sample_client sample_server sample-IsReached deployments events in_order
      empty_storage writes "cart" new_sample-IsNew
      (("1", prod-code), (("1", first-code), (("2", second-code), tt)))
      ((cart-IsPlain, prod-HasNo_percent), (tt, (tt, tt))) (cart-HasNoNul, (tt, (tt, tt)))
      cart-IsPlain cart-HasNoNul 1 (sample_pages _ _)

abbrev newest : ListFilter
newest = record { environment = "prod"; since = zero_time; limit = pos 1 }

list_deployments_exact_example :
    (ds : List Deployment) × (result : List Deployment) × (list_deployments sample_client
        deployments 1 saved live newest
      ≡ some (ok result))
    × (ds
        ≡ finds
            (read_deployment sample_client deployments saved live)
            (sample_server.scanned saved.server (deployment_key_prefix <> "*")))
    × ((d : Deployment)
        → Memᴰ d ds ↔ IsStored sample_client sample_server deployments events saved d)
    × IsListing ds newest result
list_deployments_exact_example =
    list_deployments_exact sample_client sample_server deployments events saved saved-IsValid 1
      newest (sample_pages _ _)

one-named : first_event.chain_id ≢ ""
one-named e = false_not_true ((eq_iff "one" "").1 e)

abbrev with_event : RedisStorage Sample
with_event = (save_event sample_client events empty_storage live (some first_event)).1

with_event-IsValid : IsValid sample_client sample_server deployments events with_event.server
unfolding apply
with_event-IsValid =
    apply-IsValid sample_client deployments events sample_server sample-IsReached empty_storage
      (event first_event) ("1", first-code) empty-IsValid

get_events_by_chain_exact_example :
    (result : List StoredEvent) × (get_events_by_chain sample_client events with_event live "one"
      ≡ ok result)
    × Pairwise IsNewerEvent result
    × Permᴰ result (
        finds
          (get_event sample_client events with_event live)
          (sample_server.members with_event.server (chain_key_prefix <> "one")))
    × ((e : StoredEvent)
        → Memᴰ e result ↔ (
            (id : String) × InChain sample_client sample_server deployments events with_event "one"
              id
            × (get_event sample_client events with_event live id ≡ ok e)))
get_events_by_chain_exact_example =
    get_events_by_chain_exact sample_client sample_server deployments events with_event "one"
      with_event-IsValid one-named

get_events_by_chain_keeps_example :
    (listed : List StoredEvent) × (later : List StoredEvent) × (get_events_by_chain sample_client
        events with_event live "one"
      ≡ ok listed)
    × Memᴰ first_event listed
    × (get_events_by_chain sample_client events
          (save_event sample_client events with_event live (some second_event)).1
          live
          "one"
        ≡ ok later)
    × Memᴰ (if "e" == "e" then second_event else first_event) later
get_events_by_chain_keeps_example =
    get_events_by_chain_keeps sample_client sample_server deployments events sample-IsReached
      empty_storage first_event second_event "1" "2" empty-IsValid first-code second-code one-named
