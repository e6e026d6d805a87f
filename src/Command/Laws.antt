-- ===== src/Command/Laws.antt =====
-- main.go: every start of the storage has its end, and when the tracer has not.
use mathlib.Core.List.{[], ◌∷◌}
use cdevents_otel_bridge.Prelude.{
  List, ◌++◌, none, some, Bool, true, false, ◌≡◌, ◌≢◌, refl, ◌⊎◌, inl, inr, All, Bool-cases,
  Option-cases,
}
use cdevents_otel_bridge.Errors.{Result-cases}
use cdevents_otel_bridge.Config.{Config}
use cdevents_otel_bridge.Command.{
  Action, open_storage, close_storage, Stop, server_ended, signalled, Parts, run_server, run_parts,
  run,
}

-- Neither the start of the storage nor its end.
abbrev pub IsInner : Action → Type 0
IsInner a = (a ≢ open_storage) × (a ≢ close_storage)

-- The storage is not touched, or opened first and closed last.
abbrev pub IsBracketed : List Action → Type 0
IsBracketed actions =
    All IsInner actions
    ⊎ ((inner : List Action) × (actions ≡ open_storage ∷ (inner ++ (close_storage ∷ [])))
        × All IsInner inner)

module _ {ℓ} {Store : Type ℓ} (parts : Parts Store) where
  run_server-IsInner : (tracing : Bool) → All IsInner (run_server parts tracing).1
  unfolding run_server
  run_server-IsInner tracing = go parts.stop tracing
    where
      go :
          (stop : Stop) (tracing : Bool)
          → All IsInner (run_server (record parts { stop = stop }) tracing).1
      go (server_ended (some e)) tracing = (((λ e. cc), (λ e. cc)), tt)
      go (server_ended none) tracing = (((λ e. cc), (λ e. cc)), tt)
      go signalled true =
          (((λ e. cc), (λ e. cc)), (((λ e. cc), (λ e. cc)), (((λ e. cc), (λ e. cc)), tt)))
      go signalled false = (((λ e. cc), (λ e. cc)), (((λ e. cc), (λ e. cc)), tt))

  run_parts-IsInner : (cfg : Config) → All IsInner (run_parts parts cfg).1
  unfolding run_parts
  run_parts-IsInner cfg = elim (Bool-cases cfg.otel.enabled) [
    | inr e ↦ rw (run_parts, e) (run_server-IsInner false)
    | inl e ↦ elim (Option-cases (parts.tracer cfg.otel)) [
      | inr (f, p) ↦ rw (run_parts, p, e) tt
      | inl p ↦ rw (run_parts, p, e) (((λ e. cc), (λ e. cc)), run_server-IsInner true)
    ]
  ]

  -- On every way through `run`, errors included, a storage that was opened is closed, once and as
  -- the last action, and nothing is done to a storage that was not opened.
  pub run-IsBracketed : (show_version : Bool) → IsBracketed (run parts show_version).1
  unfolding run
  run-IsBracketed true = inl (((λ e. cc), (λ e. cc)), tt)
  run-IsBracketed false = elim (Result-cases parts.config) [
    | inr (e, p) ↦ rw (run, p) (inl tt)
    | inl (cfg, p) ↦ elim (Result-cases (parts.storage cfg.storage)) [
      | inr (e, q) ↦ rw (run, p, q) (inl tt)
      | inl (store, q) ↦ rw (run, p, q) (inr ((run_parts parts cfg).1, refl, run_parts-IsInner cfg))
    ]
  ]
