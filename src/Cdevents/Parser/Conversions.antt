-- ===== src/Cdevents/Parser/Conversions.antt =====
-- parser.go: what the models that an event is turned into hold.
use mathlib.Core.List.Memᴰ
use cdevents_otel_bridge.Prelude.{◌≡◌, refl, false, is_empty, none, some}
use cdevents_otel_bridge.Cdevents.{CdEvent}
use cdevents_otel_bridge.Cdevents.Fields.Laws.{first_non_empty-is_empty}
use cdevents_otel_bridge.Cdevents.Parser.{to_deployment}
use cdevents_otel_bridge.Cdevents.Validator.{validate}
use cdevents_otel_bridge.Cdevents.Validator.Laws.{validate_iff}

-- The deployment of an event that `Validate` lets pass names a service.
pub to_deployment-service :
    (e : CdEvent) → validate (some e) ≡ none → is_empty (to_deployment e).service ≡ false
unfolding to_deployment
to_deployment-service e h =
    first_non_empty-is_empty e.subject.id _ (Memᴰ.tail (Memᴰ.tail (Memᴰ.head refl)))
      ((validate_iff e).0 h).subject_id
