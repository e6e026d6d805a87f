-- ===== src/Otelbridge/Resolver/Hits.antt =====
-- resolver.go: how long an answer of the inner resolver is reused, and what happens when it fails.
use cdevents_otel_bridge.Prelude.{
  ℕ, ◌+◌, ◌<◌, String, ◌≡◌, refl, sym, ap, ◌∙◌, inl, inr, Option, none, some, true, false, ◌==◌,
  eq_refl, arith, if◌then◌else◌, Bool-cases, Option-cases,
}
use cdevents_otel_bridge.Dict
use cdevents_otel_bridge.Dict.Laws.{get-put, get-remove}
use cdevents_otel_bridge.Errors.{Error, resolver_not_found, is_resolver_not_found}
use cdevents_otel_bridge.Models.{Deployment}
use cdevents_otel_bridge.Time.{Time, before}
use cdevents_otel_bridge.Otelbridge.{Answer, failure}
use cdevents_otel_bridge.Otelbridge.Resolver.{
  CacheEntry, CachedResolver, Pending, hit, miss, begin, store, stale_or, finish,
  resolve_deployment, invalidate,
}

-- With a stale entry or none, a call asks the inner resolver, and keeps what it found.
begin-miss :
    (r : CachedResolver) (now : Time) (service : String) (p : Pending)
    → begin r now service ≡ miss p
    → record { service = service; now = now; entry = Dict.get r.entries service } ≡ p
unfolding begin
begin-miss r now service p h = elim (Option-cases (Dict.get r.entries service)) [
  | inl g ↦ rw g (miss_inj (rw (g, begin) at h))
  | inr (entry, g) ↦ elim (Bool-cases (before now entry.expires_at)) [
    | inl b ↦ absurd (hit_not_miss (rw (b, begin) at (rw (g, begin) at h)))
    | inr b ↦ rw g (miss_inj (rw (b, begin) at (rw (g, begin) at h)))
  ]
]
  where
    miss_inj : {p q : Pending} → miss p ≡ miss q → p ≡ q
    miss_inj e = cc

    hit_not_miss : {a : Answer} {p : Pending} → hit a ≡ miss p → ⊥
    hit_not_miss e = cc

get-store :
    (r : CachedResolver) (service : String) (entry : CacheEntry)
    → Dict.get (store r service entry).entries service ≡ some entry
unfolding store
get-store r service entry = rw get-put (rw eq_refl refl)

before-lt : (a b : ℕ) → a < b → before a b ≡ true
before-lt a b h = ground arith

begin-store :
    (r : CachedResolver) (service : String) (entry : CacheEntry) (now : Time)
    → now < entry.expires_at
    → begin (store r service entry) now service
      ≡ hit (record { deployment = entry.deployment; err = entry.err })
unfolding begin
begin-store r service entry now h =
    rw (get-store r service entry, begin) (rw (before-lt now entry.expires_at h) refl)

-- the call at a miss
resolve_deployment-miss :
    (r : CachedResolver) (inner : String → Answer) (now : Time) (service : String) (p : Pending)
    → begin r now service ≡ miss p
    → resolve_deployment r inner now service
      ≡ finish r
          (record { service = service; now = now; entry = Dict.get r.entries service })
          (inner service)
unfolding resolve_deployment
resolve_deployment-miss r inner now service p h =
    rw h (ap (λ q. finish r q (inner q.service)) (sym (begin-miss r now service p h)))

resolve_deployment-hit :
    (r : CachedResolver) (inner : String → Answer) (now : Time) (service : String) (answer : Answer)
    → begin r now service ≡ hit answer
    → resolve_deployment r inner now service ≡ (answer, r)
unfolding resolve_deployment
resolve_deployment-hit r inner now service answer h = rw h refl

-- the cache once the inner resolver has found a deployment, or nothing
abbrev found : CachedResolver → Time → String → Option Deployment → CachedResolver
found r now service d =
    store r service (record { deployment = d; err = none; expires_at = now + r.cache_ttl })

abbrev found_nothing : CachedResolver → Time → String → CachedResolver
found_nothing r now service =
    store r service (record {
      deployment = none;
      err = some resolver_not_found;
      expires_at = now + r.negative_ttl;
    })

abbrev success : Option Deployment → Answer
success d = record { deployment = d; err = none }

serves_stale :
    (r : CachedResolver) (failing : String → Answer) (now : Time) (service : String)
    → (entry : CacheEntry) (e : Error) → Dict.get r.entries service ≡ some entry
    → entry.err ≡ none
    → failing service ≡ failure e
    → is_resolver_not_found e ≡ false
    → resolve_deployment r failing now service ≡ (success entry.deployment, r)
unfolding resolve_deployment begin finish stale_or
serves_stale r failing now service entry e g k b n =
    elim (Bool-cases (before now entry.expires_at)) [
      | inl c ↦ rw (g, begin) (rw c (rw k refl))
      | inr c ↦ rw (g, begin) (rw c (rw b (rw (n, finish) (rw (k, stale_or) refl))))
    ]

module _ (r : CachedResolver) (inner : String → Answer) (now : Time) (service : String)
    (p : Pending) (m : begin r now service ≡ miss p) where
  resolve_deployment-found :
      (d : Option Deployment)
      → inner service ≡ success d
      → resolve_deployment r inner now service ≡ (success d, found r now service d)
  unfolding finish
  resolve_deployment-found d a = resolve_deployment-miss r inner now service p m ∙ rw a refl

  resolve_deployment-found_nothing :
      (e : Error)
      → inner service ≡ failure e
      → is_resolver_not_found e ≡ true
      → resolve_deployment r inner now service ≡ (failure e, found_nothing r now service)
  unfolding finish
  resolve_deployment-found_nothing e a n =
      resolve_deployment-miss r inner now service p m ∙ rw a (rw (n, finish) refl)

  -- After a call at `now` that finds no fresh entry and for which the inner resolver finds a
  -- deployment, a call for the service before `now + cacheTTL` returns that deployment, whatever
  -- the inner resolver would answer then, and leaves the cache as it is.
  pub resolve_deployment_reuses :
      (d : Option Deployment) (other : String → Answer) (later : Time)
      → inner service ≡ success d
      → later < now + r.cache_ttl
      → resolve_deployment (resolve_deployment r inner now service).1 other later service
        ≡ (success d, (resolve_deployment r inner now service).1)
  resolve_deployment_reuses d other later a h =
      rw (resolve_deployment-found d a)
        (resolve_deployment-hit _ other later service (success d) (begin-store r service _ later h))

  -- After a call at `now` that finds no fresh entry and for which the inner resolver fails with
  -- `ErrNotFound`, or an error that wraps it, a call for the service before `now + negativeTTL`
  -- returns `ErrNotFound`, whatever the inner resolver would answer then, and leaves the cache as
  -- it is.
  pub resolve_deployment_reuses_not_found :
      (e : Error) (other : String → Answer) (later : Time)
      → inner service ≡ failure e
      → is_resolver_not_found e ≡ true
      → later < now + r.negative_ttl
      → resolve_deployment (resolve_deployment r inner now service).1 other later service
        ≡ (failure resolver_not_found, (resolve_deployment r inner now service).1)
  resolve_deployment_reuses_not_found e other later a n h =
      rw (resolve_deployment-found_nothing e a n) (
        resolve_deployment-hit _ other later service (failure resolver_not_found)
          (begin-store r service _ later h))

  -- After a call at `now` that finds no fresh entry and for which the inner resolver finds a
  -- deployment, a call for the service at any time, for which the inner resolver fails with
  -- another error than `ErrNotFound`, returns that deployment, expired or not, and leaves the
  -- cache as it is: the error is neither returned nor remembered.
  pub resolve_deployment_serves_stale :
      (d : Option Deployment) (failing : String → Answer) (e : Error) (later : Time)
      → inner service ≡ success d
      → failing service ≡ failure e
      → is_resolver_not_found e ≡ false
      → resolve_deployment (resolve_deployment r inner now service).1 failing later service
        ≡ (success d, (resolve_deployment r inner now service).1)
  resolve_deployment_serves_stale d failing e later a b n = rw (resolve_deployment-found d a) (
      serves_stale (found r now service d) failing later service _ e (get-store r service _) refl b
        n)

-- After `Invalidate` a call for the service asks the inner resolver, and a call for another service
-- finds what it found before.
pub begin-invalidate :
    (r : CachedResolver) (now : Time) (service other : String)
    → begin (invalidate r service) now other ≡ (
        if service == other
        then miss (record { service = other; now = now; entry = none })
        else begin r now other)
unfolding begin invalidate
begin-invalidate r now service other = elim (Bool-cases (service == other)) [
  | inl e ↦ rw e (rw (get-remove, begin) (rw e refl))
  | inr e ↦ rw e (rw (get-remove, begin) (rw e refl))
]
