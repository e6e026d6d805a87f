-- ===== src/Otelbridge/Resolver/Steps.antt =====
-- resolver.go: calls of `ResolveDeployment`, `Invalidate` and `Reset` that overlap. The mutex makes
-- each access to the cache one step; the inner resolver runs in between.
pub mod Justified
use mathlib.Core.List.Memᴰ
use mathlib.Core.Path.{subst}
use cdevents_otel_bridge.Prelude.{
  String, List, [], ◌∷◌, ◌++◌, ◌≡◌, refl, sym, inl, inr, none, some, true, ◌==◌, All, All-of_mem,
  mem-All, Memᴰ, Bool-cases, Option-cases,
}
use cdevents_otel_bridge.Dict
use cdevents_otel_bridge.Dict.{Dict}
use cdevents_otel_bridge.Dict.Laws.{mem-of_get, All-put}
use cdevents_otel_bridge.Errors.{Error, resolver_not_found, is_resolver_not_found}
use cdevents_otel_bridge.Time.{Time, before}
use cdevents_otel_bridge.Otelbridge.{Answer, failure}
use cdevents_otel_bridge.Otelbridge.Resolver.{
  CacheEntry, CachedResolver, CacheOption, with_cache_ttl, with_negative_cache_ttl,
  new_cached_resolver, apply_option, apply_options, Pending, Begun, hit, miss, begin, store,
  stale_or, finish, invalidate, reset,
}

-- The cache, the calls that wait for the inner resolver, and what it and the calls returned so far.
pub record World : Type 0 where
  pub resolver : CachedResolver
  pub pending : List Pending
  pub asked : List (String × Answer)
  pub returned : List (String × Answer)

abbrev pub new_world : List CacheOption → World
new_world opts = record {
  resolver = new_cached_resolver opts;
  pending = [];
  asked = [];
  returned = [];
}

-- One step of one call.
pub data Step : World → World → Type 0 where
  -- a call finds a fresh entry and returns it
  return_hit :
      {w : World} (now : Time) (service : String) (answer : Answer)
      → begin w.resolver now service ≡ hit answer
      → Step w (record w { returned = (service, answer) ∷ w.returned })
  -- a call finds none, and asks the inner resolver
  ask :
      {w : World} (now : Time) (service : String) (p : Pending)
      → begin w.resolver now service ≡ miss p
      → Step w (record w { pending = p ∷ w.pending })
  -- the inner resolver answers a call that waits, and the call returns
  return_answer :
      {w : World} (earlier later : List Pending) (p : Pending) (answer : Answer)
      → w.pending ≡ earlier ++ p ∷ later
      → Step w (record {
        resolver = (finish w.resolver p answer).1;
        pending = earlier ++ later;
        asked = (p.service, answer) ∷ w.asked;
        returned = (p.service, (finish w.resolver p answer).0) ∷ w.returned;
      })
  invalidates :
      {w : World} (service : String)
      → Step w (record w { resolver = invalidate w.resolver service })
  resets : {w : World} → Step w (record w { resolver = reset w.resolver })

-- The worlds that calls lead to, from a new resolver.
pub data IsReachable (opts : List CacheOption) : World → Type 0 where
  start : IsReachable opts (new_world opts)
  next : {v w : World} → IsReachable opts v → Step v w → IsReachable opts w

-- An answer for a service that the inner resolver accounts for: it gave it for that service, or it is
-- `ErrNotFound`, and the inner resolver failed with an error for that service that is `ErrNotFound`.
pub data IsJustified (asked : List (String × Answer)) (service : String) (answer : Answer)
    : Type 0 where
  given : Memᴰ (service, answer) asked → IsJustified asked service answer
  not_found :
      (other : Answer) (e : Error)
      → Memᴰ (service, other) asked
      → other.err ≡ some e
      → is_resolver_not_found e ≡ true
      → answer ≡ failure resolver_not_found
      → IsJustified asked service answer
