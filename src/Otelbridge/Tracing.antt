-- ===== src/Otelbridge/Tracing.antt =====
-- internal/otel/provider.go: the options of the exporter and the attributes of the resource. The
-- SDK and the exporter are parameters.
use mathlib.Core.List.{[], ◌∷◌}
use Prim.Native.String.{[], ◌∷◌}
use cdevents_otel_bridge.Prelude.{
  String, List, Bool, true, Option, none, some, is_empty, if◌then◌else◌,
}
use cdevents_otel_bridge.Errors.{Result, ok, wrapped, ◌>>=◌}
use cdevents_otel_bridge.Text.{has_prefix, trim_space}

pub record TracerConfig : Type 0 where
  pub endpoint : String
  pub insecure : Bool
  pub service_name : String
  pub service_version : String

-- the options of otlptracegrpc
pub data ExporterOption : Type 0 where
  with_endpoint_url with_endpoint : String → ExporterOption
  with_insecure : ExporterOption

-- strings.Contains
unfoldable pub contains : String → String → Bool
unfolding has_prefix
contains [] sub = is_empty sub
contains (c ∷ s) sub = let rest = contains s sub in if has_prefix (c ∷ s) sub then true else rest

unfoldable pub exporter_options : TracerConfig → List ExporterOption
unfolding contains trim_space
exporter_options cfg =
    let endpoint = trim_space cfg.endpoint in
    if contains endpoint "://"
    then with_endpoint_url endpoint ∷ []
    else with_endpoint endpoint ∷ (if cfg.insecure then with_insecure ∷ [] else [])

unfoldable pub resource_attributes : TracerConfig → List (String × String)
resource_attributes cfg =
    ("service.name", cfg.service_name)
    ∷ (if is_empty cfg.service_version then [] else ("service.version", cfg.service_version) ∷ [])

-- the span processors that are not nil
unfoldable pub given {ℓ} : {P : Type ℓ} → List (Option P) → List P
given [] = []
given (none ∷ ps) = given ps
given (some p ∷ ps) = p ∷ given ps

-- `New` of the exporter, the merge with the default resource, and the provider with a batcher over
-- the exporter, the resource and the processors
unfoldable pub new_tracer_provider {ℓ} :
    {Exporter Resource Provider : Type 0} {P : Type ℓ}
    → (List ExporterOption → Result Exporter)
    → (List (String × String) → Result Resource)
    → (Exporter → Resource → List P → Provider)
    → TracerConfig
    → List (Option P)
    → Result Provider
unfolding exporter_options resource_attributes given
new_tracer_provider new_exporter merge_default new_provider cfg processors =
    wrapped "failed to create OTLP exporter: " (new_exporter (exporter_options cfg))
    >>= (λ exporter.
        wrapped "failed to create resource: " (merge_default (resource_attributes cfg))
        >>= (λ resource. ok (new_provider exporter resource (given processors))))
