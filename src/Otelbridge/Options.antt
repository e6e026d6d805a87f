-- ===== src/Otelbridge/Options.antt =====
-- processor.go: the options of `NewSpanProcessor`, and the methods that do nothing. A logger is
-- whether one was given.
use mathlib.Core.List.{[], ◌∷◌}
use cdevents_otel_bridge.Prelude.{
  String, List, Bool, true, false, Option, none, some, if◌then◌else◌,
}
use cdevents_otel_bridge.Prelude.Int.{ℤ, pos, ltb_ℤ}
use cdevents_otel_bridge.Errors.{Error}
use cdevents_otel_bridge.Time.{Time}
use cdevents_otel_bridge.Otelbridge.{Answer}
use cdevents_otel_bridge.Otelbridge.Attributes.{KeyValue}
use cdevents_otel_bridge.Otelbridge.Processor.{on_start}

abbrev pub default_lookup_timeout : ℤ
default_lookup_timeout = pos 500000000

pub record SpanProcessor : Type 0 where
  pub resolver : Option (ℤ → String → Answer)
  pub service_name : String
  pub timeout : ℤ
  pub logs : Bool

pub data ProcessorOption : Type 0 where
  with_service_name : String → ProcessorOption
  with_lookup_timeout : ℤ → ProcessorOption
  with_logger : Bool → ProcessorOption

unfoldable pub apply_processor_option : ProcessorOption → SpanProcessor → SpanProcessor
apply_processor_option (with_service_name name) p = record p { service_name = name }
apply_processor_option (with_lookup_timeout timeout) p =
    if ltb_ℤ (pos 0) timeout then record p { timeout = timeout } else p
apply_processor_option (with_logger given) p = if given then record p { logs = true } else p

unfoldable pub apply_processor_options : List ProcessorOption → SpanProcessor → SpanProcessor
unfolding apply_processor_option
apply_processor_options [] p = p
apply_processor_options (opt ∷ opts) p = apply_processor_options opts (apply_processor_option opt p)

unfoldable pub new_span_processor :
    Option (ℤ → String → Answer) → List ProcessorOption → SpanProcessor
unfolding apply_processor_options
new_span_processor resolver opts = apply_processor_options opts (record {
  resolver = resolver;
  service_name = "";
  timeout = default_lookup_timeout;
  logs = false;
})

-- The resolver within the processor's timeout, as `OnStart` calls it.
abbrev pub resolve_within : SpanProcessor → Option (String → Answer)
resolve_within p = elim p.resolver [ none ↦ none | some resolve ↦ some (resolve p.timeout) ]

unfoldable pub start_span :
    (Time → String) → SpanProcessor → Option (List (String × String)) → List KeyValue
unfolding on_start
start_span format_rfc3339 p = on_start format_rfc3339 (resolve_within p) p.service_name

unfoldable pub shutdown : SpanProcessor → Option Error
shutdown p = none

unfoldable pub force_flush : SpanProcessor → Option Error
force_flush p = none
