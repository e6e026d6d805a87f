-- ===== src/Otelbridge/Resolver.antt =====
-- resolver.go: the cache in front of a resolver. The mutex is held for each access to the map and
-- not across the call of the inner resolver, so a call of `ResolveDeployment` is two steps on the
-- cache: `begin` reads the entry, `finish` stores what the inner resolver returned. In between the
-- steps of other calls may happen.
pub mod Steps
pub mod Hits
use cdevents_otel_bridge.Prelude.{
  ℕ, zero, suc, ◌+◌, ◌*◌, String, List, [], ◌∷◌, Option, none, some, Bool, true, false,
  if◌then◌else◌,
}
use cdevents_otel_bridge.Prelude.Int.{ℤ, pos, negsuc}
use cdevents_otel_bridge.Time.{Time, second, before}
use cdevents_otel_bridge.Dict
use cdevents_otel_bridge.Dict.{Dict}
use cdevents_otel_bridge.Errors.{Error, resolver_not_found, is_resolver_not_found}
use cdevents_otel_bridge.Models.{Deployment}
use cdevents_otel_bridge.Otelbridge.{Answer}

abbrev pub default_cache_ttl : ℕ
default_cache_ttl = 30 * second

abbrev pub default_negative_ttl : ℕ
default_negative_ttl = 10 * second

pub record CacheEntry : Type 0 where
  pub deployment : Option Deployment
  pub err : Option Error
  pub expires_at : Time

-- The inner resolver and the clock are arguments of the methods. The two durations are positive.
pub record CachedResolver : Type 0 where
  pub cache_ttl : ℕ
  pub negative_ttl : ℕ
  pub entries : Dict CacheEntry

pub data CacheOption : Type 0 where
  with_cache_ttl with_negative_cache_ttl : ℤ → CacheOption

-- `if ttl > 0 { field = ttl }`
abbrev pub if_positive : ℤ → ℕ → ℕ
if_positive (pos zero) field = field
if_positive (pos (suc n)) field = suc n
if_positive (negsuc n) field = field

unfoldable pub apply_option : CachedResolver → CacheOption → CachedResolver
apply_option r (with_cache_ttl ttl) = record r { cache_ttl = if_positive ttl r.cache_ttl }
apply_option r (with_negative_cache_ttl ttl) = record r {
  negative_ttl = if_positive ttl r.negative_ttl;
}

unfoldable pub apply_options : CachedResolver → List CacheOption → CachedResolver
unfolding apply_option
apply_options r [] = r
apply_options r (opt ∷ opts) = apply_options (apply_option r opt) opts

unfoldable pub new_cached_resolver : List CacheOption → CachedResolver
unfolding apply_options
new_cached_resolver opts =
    apply_options
      (record { cache_ttl = default_cache_ttl; negative_ttl = default_negative_ttl; entries = [] })
      opts

-- The local variables that a call keeps while the inner resolver runs.
pub record Pending : Type 0 where
  pub service : String
  pub now : Time
  pub entry : Option CacheEntry

pub data Begun : Type 0 where
  -- the entry is fresh, and the call returns it
  hit : Answer → Begun
  -- the inner resolver is asked
  miss : Pending → Begun

unfoldable pub begin : CachedResolver → Time → String → Begun
begin r now service = elim (Dict.get r.entries service) [
  | none ↦ miss (record { service = service; now = now; entry = none })
  | some entry ↦
      if before now entry.expires_at
      then hit (record { deployment = entry.deployment; err = entry.err })
      else miss (record { service = service; now = now; entry = some entry })
]

unfoldable pub store : CachedResolver → String → CacheEntry → CachedResolver
store r service entry = record r { entries = Dict.put r.entries service entry }

-- `if ok && entry.err == nil { return entry.deployment, nil }`, and the return behind the switch
unfoldable pub stale_or : Option CacheEntry → Answer → Answer
stale_or none answer = answer
stale_or (some entry) answer = elim entry.err [
  | none ↦ record { deployment = entry.deployment; err = none }
  | some e ↦ answer
]

-- the `switch` on the error of the inner resolver
unfoldable pub finish : CachedResolver → Pending → Answer → Answer × CachedResolver
unfolding store stale_or
finish r p answer = elim answer.err [
  | none ↦ (
    answer,
    store r p.service
        (record { deployment = answer.deployment; err = none; expires_at = p.now + r.cache_ttl }),
  )
  | some e ↦ elim (is_resolver_not_found e) [
    | true ↦ (
      answer,
      store r p.service (record {
        deployment = none;
        err = some resolver_not_found;
        expires_at = p.now + r.negative_ttl;
      }),
    )
    | false ↦ (stale_or p.entry answer, r)
  ]
]

abbrev pub continue : CachedResolver → (String → Answer) → Begun → Answer × CachedResolver
continue r inner (hit answer) = (answer, r)
continue r inner (miss p) = finish r p (inner p.service)

-- A call during which no other call touches the cache.
unfoldable pub resolve_deployment :
    CachedResolver → (String → Answer) → Time → String → Answer × CachedResolver
unfolding begin finish
resolve_deployment r inner now service = continue r inner (begin r now service)

unfoldable pub invalidate : CachedResolver → String → CachedResolver
invalidate r service = record r { entries = Dict.remove r.entries service }

unfoldable pub reset : CachedResolver → CachedResolver
reset r = record r { entries = [] }
