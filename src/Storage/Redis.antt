-- ===== src/Storage/Redis.antt =====
-- redis.go. The client library is a parameter: its commands, over the state `S` of the server. The
-- JSON encoders of the two records are parameters too.
pub mod Server
pub mod Backend
pub mod Escaping
pub mod Keys
pub mod Invariant
pub mod Saving
pub mod Lookups
pub mod Replay
pub mod Written
pub mod Agreement
pub mod Scanning
pub mod Listing
pub mod Chains
pub mod Sample
pub mod Codes
mod Tests
use Prim.Native.Char.{code}
use Prim.Native.String.{[], ◌∷◌}
use mathlib.Core.List.{[], ◌∷◌}
use cdevents_otel_bridge.Prelude.{
  ℕ, zero, suc, String, List, ◌++◌, Option, none, some, ◌==◌, ◌<>◌, is_empty, keep, eqb,
  if◌then◌else◌,
}
use cdevents_otel_bridge.Prelude.Int.{ℤ, pos, ltb_ℤ}
use cdevents_otel_bridge.Errors.{
  Error, Result, ok, err, plain, wrap, wrapped, not_found, is_not_found, ◌>>=◌,
}
use cdevents_otel_bridge.Models.{Deployment}
use cdevents_otel_bridge.Cdevents.{StoredEvent}
use cdevents_otel_bridge.Storage.{
  Context, ListFilter, apply_filter, latest_deployment, sort_events_newest_first,
}

abbrev pub deployment_key_prefix : String
deployment_key_prefix = "deployment:"

abbrev pub event_key_prefix : String
event_key_prefix = "event:"

abbrev pub chain_key_prefix : String
chain_key_prefix = "chain:"

abbrev pub scan_batch_size : ℕ
scan_batch_size = 100

-- The commands that write: SET, SADD and EXPIRE. A time to live is a number of nanoseconds.
pub data Command : Type 0 where
  set : String → String → ℤ → Command
  s_add : String → String → Command
  expire : String → ℤ → Command

-- What the backend calls of the client library. `get` returns `none` for `redis.Nil`; `scan`
-- returns keys and the next cursor; `exec` runs the commands of a transaction pipeline.
pub record Client (S : Type 0) : Type 0 where
  pub get : S → Context → String → Result (Option String)
  pub s_members : S → Context → String → Result (List String)
  pub scan : S → Context → ℕ → String → ℕ → Result (List String × ℕ)
  pub run : S → Context → Command → Result (Unit {0}) × S
  pub exec : S → Context → List Command → Result (Unit {0}) × S
  pub ping : S → Context → Option Error
  pub close : S → Option Error

-- json.Marshal and json.Unmarshal, at one type
pub record Codec (A : Type 0) : Type 0 where
  pub marshal : A → Result String
  pub unmarshal : String → Result A

pub record RedisStorage (S : Type 0) : Type 0 where
  pub server : S
  pub ttl : ℤ

-- What stands for one character in a part of a key.
unfoldable pub escape_char : ℕ → Option String
escape_char c =
    if eqb c b'*'
    then some "%2A"
    else if eqb c b'?'
    then some "%3F"
    else if eqb c b'['
    then some "%5B"
    else if eqb c b']'
    then some "%5D"
    else if eqb c 92
    then some "%5C"
    else none

unfoldable pub escape_key_part : String → String
escape_key_part [] = ""
escape_key_part (c ∷ s) =
    let rest = escape_key_part s in
    elim (escape_char (code c)) [ some escaped ↦ escaped <> rest | none ↦ c ∷ rest ]

unfoldable pub redis_deployment_key : String → String → String
redis_deployment_key service environment =
    deployment_key_prefix <> escape_key_part service <> ":" <> escape_key_part environment

-- The loops over keys: what is not found is skipped, and any other error ends the loop.
unfoldable pub collect {ℓ} : {A : Type ℓ} → (String → Result A) → List String → Result (List A)
collect read [] = ok []
collect read (key ∷ keys) =
    let rest = collect read keys in
    elim (read key) [
      | ok a ↦ rest >>= (λ more. ok (a ∷ more))
      | err e ↦ if is_not_found e then rest else err e
    ]

-- The result of a `Get`, decoded: `redis.Nil` is `ErrNotFound`.
unfoldable pub decoded {ℓ} :
    {A : Type ℓ} → String → String → (String → Result A) → Result (Option String) → Result A
decoded failed undecoded unmarshal (err e) = err (wrap failed e "")
decoded failed undecoded unmarshal (ok none) = err not_found
decoded failed undecoded unmarshal (ok (some text)) = wrapped undecoded (unmarshal text)

-- Goes on with what a loop returned, if it ended.
abbrev pub after {ℓ κ} :
    {A : Type ℓ} {B : Type κ} → (A → Result B) → Option (Result A) → Option (Result B)
after f none = none
after f (some r) = some (r >>= f)

-- the commands that `SaveEvent` puts into its pipeline
unfoldable pub event_commands : ℤ → StoredEvent → String → List Command
event_commands ttl event text =
    set (event_key_prefix <> event.id) text ttl
    ∷ (if is_empty event.chain_id
        then []
        else s_add (chain_key_prefix <> event.chain_id) event.id
          ∷ (if ltb_ℤ (pos 0) ttl
              then expire (chain_key_prefix <> event.chain_id) ttl ∷ []
              else []))

module _ {S : Type 0} (client : Client S) where
  -- `ParseURL` and `NewClient` are parameters. A client whose ping fails is closed, and is not used
  -- again.
  unfoldable pub new_redis_storage :
      {Options : Type 0}
      → (String → Result Options)
      → (Options → S)
      → Context
      → String
      → ℤ
      → Result (RedisStorage S)
  new_redis_storage parse_url new_client ctx url ttl = elim (parse_url url) [
    | err e ↦ err (wrap "failed to parse redis URL: " e "")
    | ok opts ↦ elim (client.ping (new_client opts) ctx) [
      | some e ↦ err (wrap "failed to ping redis: " e "")
      | none ↦ ok (record { server = new_client opts; ttl = ttl })
    ]
  ]

  unfoldable pub ping : RedisStorage S → Context → Option Error
  ping r ctx = elim (client.ping r.server ctx) [
    | none ↦ none
    | some e ↦ some (wrap "redis ping failed: " e "")
  ]

  unfoldable pub close : RedisStorage S → Option Error
  close r = client.close r.server

  module _ (codec : Codec Deployment) where
    unfoldable pub save_deployment :
        RedisStorage S → Context → Option Deployment → Result (Unit {0}) × RedisStorage S
    save_deployment r ctx none = (err (plain "deployment is nil"), r)
    save_deployment r ctx (some d) = elim (codec.marshal d) [
      | err e ↦ (err (wrap "failed to marshal deployment: " e ""), r)
      | ok text ↦
          let (result, server) =
            client.run r.server ctx
              (set (redis_deployment_key d.service d.environment) text r.ttl) in
          (wrapped "failed to save deployment: " result, record r { server = server })
    ]

    unfoldable pub read_deployment : RedisStorage S → Context → String → Result Deployment
    read_deployment r ctx key =
        decoded "failed to get deployment: " "failed to unmarshal deployment: " codec.unmarshal
          (client.get r.server ctx key)

    unfoldable pub get_deployment : RedisStorage S → Context → String → String → Result Deployment
    get_deployment r ctx service environment =
        read_deployment r ctx (redis_deployment_key service environment)

    -- The loop of `scanDeployments`, from a cursor: at most `fuel` pages, and `none` if the
    -- iteration has not come to its end by then.
    unfoldable pub scan_from :
        RedisStorage S → Context → String → ℕ → ℕ → Option (Result (List Deployment))
    scan_from r ctx pattern zero cursor = none
    scan_from r ctx pattern (suc fuel) cursor =
        let rest = scan_from r ctx pattern fuel in
        elim (client.scan r.server ctx cursor pattern scan_batch_size) [
          | err e ↦ some (err (wrap "failed to scan deployments: " e ""))
          | ok (keys, next) ↦ elim (collect (read_deployment r ctx) keys) [
            | err e ↦ some (err e)
            | ok page ↦
                if eqb next 0 then some (ok page) else after (λ more. ok (page ++ more)) (rest next)
          ]
        ]

    unfoldable pub scan_deployments :
        ℕ → RedisStorage S → Context → String → Option (Result (List Deployment))
    scan_deployments fuel r ctx pattern = scan_from r ctx pattern fuel 0

    unfoldable pub get_latest_deployment :
        ℕ → RedisStorage S → Context → String → Option (Result Deployment)
    get_latest_deployment fuel r ctx service =
        after (λ ds. latest_deployment (keep (λ d. d.service == service) ds))
          (scan_deployments fuel r ctx (deployment_key_prefix <> escape_key_part service <> ":*"))

    unfoldable pub list_deployments :
        ℕ → RedisStorage S → Context → ListFilter → Option (Result (List Deployment))
    list_deployments fuel r ctx filter =
        after (λ ds. ok (apply_filter ds filter))
          (scan_deployments fuel r ctx (deployment_key_prefix <> "*"))

  module _ (codec : Codec StoredEvent) where
    unfoldable pub save_event :
        RedisStorage S → Context → Option StoredEvent → Result (Unit {0}) × RedisStorage S
    save_event r ctx none = (err (plain "event is nil"), r)
    save_event r ctx (some event) = elim (codec.marshal event) [
      | err e ↦ (err (wrap "failed to marshal event: " e ""), r)
      | ok text ↦
          let (result, server) = client.exec r.server ctx (event_commands r.ttl event text) in
          (wrapped "failed to save event: " result, record r { server = server })
    ]

    unfoldable pub get_event : RedisStorage S → Context → String → Result StoredEvent
    get_event r ctx event_id =
        decoded "failed to get event: " "failed to unmarshal event: " codec.unmarshal
          (client.get r.server ctx (event_key_prefix <> event_id))

    unfoldable pub get_events_by_chain :
        RedisStorage S → Context → String → Result (List StoredEvent)
    get_events_by_chain r ctx chain_id =
        if is_empty chain_id
        then ok []
        else wrapped "failed to get chain members: "
            (client.s_members r.server ctx (chain_key_prefix <> chain_id))
          >>= collect (get_event r ctx)
          >>= (λ events. ok (sort_events_newest_first events))
