-- ===== src/Storage/Redis/Backend.antt =====
-- redis.go: the backend as an implementation of the interface of interface.go. A scan that has not
-- come to its end within the fuel counts as a failure.
use cdevents_otel_bridge.Prelude.{ℕ, Option, none, some}
use cdevents_otel_bridge.Errors.{Result, err, plain}
use cdevents_otel_bridge.Models.{Deployment}
use cdevents_otel_bridge.Cdevents.{StoredEvent}
use cdevents_otel_bridge.Storage.{Storage}
use cdevents_otel_bridge.Storage.Redis.{
  Client, Codec, RedisStorage, save_deployment, get_deployment, get_latest_deployment,
  list_deployments, save_event, get_event, get_events_by_chain, ping, close,
}

abbrev pub within_fuel {ℓ} : {A : Type ℓ} → Option (Result A) → Result A
within_fuel none = err (plain "scan not at its end")
within_fuel (some r) = r

abbrev pub redis_storage :
    {S : Type 0} → Client S → Codec Deployment → Codec StoredEvent → ℕ → Storage (RedisStorage S)
redis_storage client deployments events fuel = record {
  save_deployment = save_deployment client deployments;
  get_deployment = get_deployment client deployments;
  get_latest_deployment =
      λ r ctx service. within_fuel (get_latest_deployment client deployments fuel r ctx service);
  list_deployments =
      λ r ctx filter. within_fuel (list_deployments client deployments fuel r ctx filter);
  save_event = save_event client events;
  get_event = get_event client events;
  get_events_by_chain = get_events_by_chain client events;
  ping = ping client;
  close = close client;
}
