-- ===== src/Command/Tests.antt =====
-- The theorems on the main program where the server fails at once.
use cdevents_otel_bridge.Prelude.{String, none, some, false, true, ◌≡◌, refl, Memᴰ}
use cdevents_otel_bridge.Errors.{ok, err, plain, wrap, not_exist, is_not_exist}
use cdevents_otel_bridge.Config.{Config, default}
use cdevents_otel_bridge.Prelude.{◌↔◌}
use cdevents_otel_bridge.Command.{
  Parts, server_ended, signalled, run, start_tracer, shut_down_tracer, load_config,
}
use cdevents_otel_bridge.Command.Laws.{IsBracketed, run-IsBracketed}
use cdevents_otel_bridge.Command.Tracer.{Traces, IsPrepared, run_tracer_iff}

abbrev traced : Config
traced = record default { otel = record default.otel { enabled = true } }

-- the storage is a name
abbrev failing : Parts String
failing = record {
  config = ok traced;
  storage = λ cfg. ok "memory";
  tracer = λ cfg. none;
  stop = server_ended (some (plain "address already in use"));
}

run-IsBracketed_example : IsBracketed (run failing false).1
run-IsBracketed_example = run-IsBracketed failing false

run_tracer_iff_example :
    (Memᴰ start_tracer (run failing false).1 ↔ IsPrepared failing false (Traces failing))
    × (Memᴰ shut_down_tracer (run failing false).1
        ↔ IsPrepared failing false (λ cfg. Traces failing cfg × (failing.stop ≡ signalled)))
run_tracer_iff_example = run_tracer_iff failing false

load_config_sample :
    load_config
      (λ key. "")
      (λ path. false)
      (λ path. err (wrap "failed to read config file: " not_exist ""))
      "missing.yaml"
    ≡ err (plain "config file missing.yaml does not exist")
unfolding load_config is_not_exist
load_config_sample = refl
