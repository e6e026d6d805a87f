-- ===== src/Cdevents/Validator.antt =====
-- validator.go. A nil event and a nil error are `none`.
pub mod Laws
use cdevents_otel_bridge.Prelude.{String, Option, none, some, is_empty, if◌then◌else◌}
use cdevents_otel_bridge.Errors.{Error, invalid_event, wrap}
use cdevents_otel_bridge.Time.{is_zero}
use cdevents_otel_bridge.Cdevents.{CdEvent}

abbrev pub invalid : String → Option Error
invalid reason = some (wrap "" invalid_event reason)

unfoldable pub validate : Option CdEvent → Option Error
validate none = invalid ": event is nil"
validate (some e) =
    if is_empty e.context.id
    then invalid ": context.id is required"
    else if is_empty e.context.type
    then invalid ": context.type is required"
    else if is_empty e.context.source
    then invalid ": context.source is required"
    else if is_zero e.context.timestamp
    then invalid ": context.timestamp is required"
    else if is_empty e.subject.id
    then invalid ": subject.id is required"
    else if is_empty e.subject.type
    then invalid ": subject.type is required"
    else none
