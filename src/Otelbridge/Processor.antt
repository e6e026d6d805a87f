-- ===== src/Otelbridge/Processor.antt =====
-- processor.go: what `OnStart` sets on a span. The span is the attributes of its resource, `none`
-- where the span has no resource; the resolver is its answer within the lookup's timeout.
use cdevents_otel_bridge.Prelude.{
  String, List, [], ◌∷◌, Option, none, some, ◌==◌, is_empty, if◌then◌else◌,
}
use cdevents_otel_bridge.Time.{Time}
use cdevents_otel_bridge.Otelbridge.{Answer}
use cdevents_otel_bridge.Otelbridge.Attributes.{KeyValue, attributes}

-- semconv.ServiceNameKey
abbrev pub service_name_key : String
service_name_key = "service.name"

-- the loop over the attributes of the resource
unfoldable pub find_service_name : List (String × String) → String
find_service_name [] = ""
find_service_name ((key, value) ∷ attrs) =
    if key == service_name_key then value else find_service_name attrs

unfoldable pub service_name_from_resource : Option (List (String × String)) → String
unfolding find_service_name
service_name_from_resource none = ""
service_name_from_resource (some attrs) = find_service_name attrs

-- the configured override, or the name in the resource
unfoldable pub service_of : String → Option (List (String × String)) → String
unfolding service_name_from_resource
service_of service_name resource =
    if is_empty service_name then service_name_from_resource resource else service_name

module _ (format_rfc3339 : Time → String) (resolver : Option (String → Answer)) where
  abbrev pub set_attributes : Answer → List KeyValue
  set_attributes answer = elim answer.err [
    | some e ↦ []
    | none ↦ attributes format_rfc3339 answer.deployment
  ]

  -- the attributes that are set on the span
  unfoldable pub on_start : String → Option (List (String × String)) → List KeyValue
  unfolding service_of
  on_start service_name resource = elim resolver [
    | none ↦ []
    | some resolve ↦
        let service = service_of service_name resource in
        if is_empty service then [] else set_attributes (resolve service)
  ]
