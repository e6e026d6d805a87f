-- ===== src/Otelbridge.antt =====
-- The package pkg/otelbridge: the cached resolver, the span attributes and the span processor, and
-- the resolver over the bridge's own storage (internal/otel/resolver.go).
pub mod Resolver
pub mod Attributes
pub mod Processor
pub mod Options
pub mod Tracing
pub mod Latest
pub mod Client
mod Tests
use cdevents_otel_bridge.Prelude.{Option, none, some, true, false}
use cdevents_otel_bridge.Errors.{Error, Result, ok, err, resolver_not_found, is_not_found}
use cdevents_otel_bridge.Models.{Deployment}

-- What a `DeploymentResolver` returns: a pointer and an error, either of which may be nil.
pub record Answer : Type 0 where
  pub deployment : Option Deployment
  pub err : Option Error

abbrev pub failure : Error → Answer
failure e = record { deployment = none; err = some e }

-- internal/otel/resolver.go: `StorageResolver.ResolveDeployment`, from what `GetLatestDeployment`
-- returned
unfoldable pub storage_resolve : Result Deployment → Answer
storage_resolve (ok d) = record { deployment = some d; err = none }
storage_resolve (err e) = elim (is_not_found e) [
  | true ↦ failure resolver_not_found
  | false ↦ failure e
]
