-- ===== src/Command/Tracer.antt =====
-- main.go: when the tracer is started, and when it is shut down.
use mathlib.Core.List.{[], ◌∷◌}
use cdevents_otel_bridge.Prelude.{
  List, ◌++◌, none, some, Bool, true, false, ◌≡◌, ◌≢◌, refl, inl, inr, Memᴰ, All, Bool-cases,
  Option-cases, ◌↔◌, sym, ap, ◌∙◌, mem-All, false_not_true, none_not_some,
}
use mathlib.Core.Path.{subst}
use mathlib.Core.List.Memᴰ
use cdevents_otel_bridge.Errors.{ok, ok_inj, err_not_ok, Result-cases}
use cdevents_otel_bridge.Config.{Config}
use cdevents_otel_bridge.Command.{
  Action, print_version, open_storage, start_tracer, shut_down_tracer, close_storage, Stop,
  server_ended, signalled, Parts, run_server, run_parts, run,
}
use cdevents_otel_bridge.Command.Laws.{IsInner}

module _ {ℓ} {Store : Type ℓ} (parts : Parts Store) where
  absent : (a : Action) (actions : List Action) → All (λ x. a ≢ x) actions → Memᴰ a actions → ⊥
  absent a actions h m = mem-All (λ x. a ≢ x) actions h m refl

  run_server_starts_none : (tracing : Bool) → Memᴰ start_tracer (run_server parts tracing).1 → ⊥
  unfolding run_server
  run_server_starts_none tracing = go parts.stop tracing
    where
      go :
          (stop : Stop) (tracing : Bool)
          → Memᴰ start_tracer (run_server (record parts { stop = stop }) tracing).1
          → ⊥
      go (server_ended (some e)) tracing = absent start_tracer _ ((λ e. cc), tt)
      go (server_ended none) tracing = absent start_tracer _ ((λ e. cc), tt)
      go signalled true = absent start_tracer _ ((λ e. cc), ((λ e. cc), ((λ e. cc), tt)))
      go signalled false = absent start_tracer _ ((λ e. cc), ((λ e. cc), tt))

  run_server_shuts_iff :
      (tracing : Bool)
      → Memᴰ shut_down_tracer (run_server parts tracing).1
        ↔ ((tracing ≡ true) × (parts.stop ≡ signalled))
  unfolding run_server
  run_server_shuts_iff tracing = go parts.stop tracing
    where
      go :
          (stop : Stop) (tracing : Bool)
          → Memᴰ shut_down_tracer (run_server (record parts { stop = stop }) tracing).1
            ↔ ((tracing ≡ true) × (stop ≡ signalled))
      go (server_ended (some e)) tracing =
          (λ m. absurd (absent shut_down_tracer _ ((λ e. cc), tt) m), λ (_, q). absurd (cc q))
      go (server_ended none) tracing =
          (λ m. absurd (absent shut_down_tracer _ ((λ e. cc), tt) m), λ (_, q). absurd (cc q))
      go signalled true = (λ _. (refl, refl), λ _. Memᴰ.tail (Memᴰ.tail (Memᴰ.head refl)))
      go signalled false = (
        λ m. absurd (absent shut_down_tracer _ ((λ e. cc), ((λ e. cc), tt)) m),
        λ (q, _). absurd (false_not_true q),
      )

  -- Tracing is enabled and its start did not fail.
  abbrev pub Traces : Config → Type 0
  Traces cfg = (cfg.otel.enabled ≡ true) × (parts.tracer cfg.otel ≡ none)

  run_parts_starts_iff : (cfg : Config) → Memᴰ start_tracer (run_parts parts cfg).1 ↔ Traces cfg
  unfolding run_parts
  run_parts_starts_iff cfg = elim (Bool-cases cfg.otel.enabled) [
    | inr e ↦
        rw (run_parts, e)
          (λ m. absurd (run_server_starts_none false m), λ (q, _). absurd (false_not_true q))
    | inl e ↦ elim (Option-cases (parts.tracer cfg.otel)) [
      | inr (f, p) ↦
          rw (run_parts, p, e)
            (λ m. absurd (Memᴰ.not-nil m), λ (_, q). absurd (none_not_some (sym q)))
      | inl p ↦ rw (run_parts, p, e) (λ _. (refl, refl), λ _. Memᴰ.head refl)
    ]
  ]

  run_parts_shuts_iff :
      (cfg : Config)
      → Memᴰ shut_down_tracer (run_parts parts cfg).1 ↔ (Traces cfg × (parts.stop ≡ signalled))
  unfolding run_parts
  run_parts_shuts_iff cfg = elim (Bool-cases cfg.otel.enabled) [
    | inr e ↦
        rw (run_parts, e)
          (
            λ m. absurd (false_not_true ((run_server_shuts_iff false).0 m).0),
            λ ((q, _), _). absurd (false_not_true q),
          )
    | inl e ↦ elim (Option-cases (parts.tracer cfg.otel)) [
      | inr (f, p) ↦
          rw (run_parts, p, e)
            (λ m. absurd (Memᴰ.not-nil m), λ ((_, q), _). absurd (none_not_some (sym q)))
      | inl p ↦
          rw (run_parts, p, e)
            (
              λ m. elim (Memᴰ.cases_cons m) [
                | inl q ↦ absurd (cc q)
                | inr r ↦ ((refl, refl), ((run_server_shuts_iff true).0 r).1)
              ],
              λ (_, q). Memᴰ.tail ((run_server_shuts_iff true).1 (refl, q)),
            )
    ]
  ]

  -- An action that is neither end of the bracket is within it.
  within :
      (a : Action) (inner : List Action)
      → IsInner a
      → Memᴰ a (open_storage ∷ (inner ++ (close_storage ∷ []))) ↔ Memᴰ a inner
  within a inner (h, k) = (
    λ m. elim (Memᴰ.cases_cons m) [
      | inl e ↦ absurd (h e)
      | inr r ↦ elim (Memᴰ.append_cases inner r) [
        | inl q ↦ q
        | inr q ↦ elim (Memᴰ.cases_cons q) [
          | inl e ↦ absurd (k e)
          | inr n ↦ absurd (Memᴰ.not-nil n)
        ]
      ]
    ],
    λ m. Memᴰ.tail (Memᴰ.append_left (close_storage ∷ []) m),
  )

  -- `run` is not asked for the version, and configuration and storage are there.
  abbrev pub IsPrepared : Bool → (Config → Type 0) → Type ℓ
  IsPrepared show_version P =
      (cfg : Config) × (store : Store) × (show_version ≡ false)
      × (parts.config ≡ ok cfg)
      × (parts.storage cfg.storage ≡ ok store)
      × P cfg

  run_does_iff :
      (a : Action) (P : Config → Type 0)
      → a ≢ print_version
      → IsInner a
      → ((cfg : Config) → Memᴰ a (run_parts parts cfg).1 ↔ P cfg)
      → (show_version : Bool) → Memᴰ a (run parts show_version).1 ↔ IsPrepared show_version P
  unfolding run
  run_does_iff a P other inner does true = (
    λ m. absurd (absent a (print_version ∷ []) (other, tt) m),
    λ (_, _, q, _, _, _). absurd (false_not_true (sym q)),
  )
  run_does_iff a P other inner does false = elim (Result-cases parts.config) [
    | inr (e, p) ↦
        rw (run, p) (λ m. absurd (Memᴰ.not-nil m), λ (_, _, _, q, _, _). absurd (err_not_ok q))
    | inl (cfg, p) ↦ elim (Result-cases (parts.storage cfg.storage)) [
      | inr (e, q) ↦
          rw (run, p, q)
            (
              λ m. absurd (Memᴰ.not-nil m),
              λ (c, store, _, r, t, _). absurd (
                  err_not_ok (sym q ∙ ap (λ (x : Config). parts.storage x.storage) (ok_inj r) ∙ t)),
            )
      | inl (store, q) ↦
          let (forth, back) = within a (run_parts parts cfg).1 inner in
          rw (run, p, q)
            (
              λ m. (cfg, store, refl, refl, q, (does cfg).0 (forth m)),
              λ (c, _, _, r, _, h). back ((does cfg).1 (subst P (sym (ok_inj r)) h)),
            )
    ]
  ]

  -- `run` starts the tracer exactly where it is not asked for the version, the configuration is
  -- loaded, the storage opened, tracing enabled and the tracer started without an error; and it
  -- shuts the tracer down exactly where, besides, a signal ends it. So a tracer that was started is
  -- not shut down where the server ends first.
  pub run_tracer_iff :
      (show_version : Bool)
      → (Memᴰ start_tracer (run parts show_version).1 ↔ IsPrepared show_version Traces)
        × (Memᴰ shut_down_tracer (run parts show_version).1
            ↔ IsPrepared show_version (λ cfg. Traces cfg × (parts.stop ≡ signalled)))
  run_tracer_iff show_version = (
    run_does_iff start_tracer Traces (λ e. cc) ((λ e. cc), (λ e. cc)) run_parts_starts_iff
        show_version,
    run_does_iff shut_down_tracer _ (λ e. cc) ((λ e. cc), (λ e. cc)) run_parts_shuts_iff
        show_version,
  )
