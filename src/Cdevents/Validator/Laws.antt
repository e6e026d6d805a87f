-- ===== src/Cdevents/Validator/Laws.antt =====
-- validator.go: which events `Validate` lets pass, and what it says of the others.
use cdevents_otel_bridge.Prelude.{
  none_not_some, some_inj, String, ◌≡◌, refl, sym, ◌↔◌, Option, none, some, Bool, true, false,
  is_empty, arith, if◌then◌else◌,
}
use cdevents_otel_bridge.Errors.{Error, is_invalid_event}
use cdevents_otel_bridge.Time.{is_zero}
use cdevents_otel_bridge.Cdevents.{CdEvent}
use cdevents_otel_bridge.Cdevents.Validator.{validate, invalid}

-- The event has all that the bridge needs: three texts and a time in its context, and the id and
-- the type of its subject.
pub record IsComplete (e : CdEvent) : Type 0 where
  pub id : is_empty e.context.id ≡ false
  pub type : is_empty e.context.type ≡ false
  pub source : is_empty e.context.source ≡ false
  pub timestamp : is_zero e.context.timestamp ≡ false
  pub subject_id : is_empty e.subject.id ≡ false
  pub subject_type : is_empty e.subject.type ≡ false

-- `Validate` returns nil just for an event that has all six required fields.
pub validate_iff : (e : CdEvent) → (validate (some e) ≡ none) ↔ IsComplete e
unfolding validate
validate_iff e = (
  λ h. record {
    id = ground (arith, h);
    type = ground (arith, h);
    source = ground (arith, h);
    timestamp = ground (arith, h);
    subject_id = ground (arith, h);
    subject_type = ground (arith, h);
  },
  λ h. rw (h.id, h.type, h.source, h.timestamp, h.subject_id, h.subject_type) refl,
)

-- Each error that the result may be is `ErrInvalidEvent`.
abbrev IsInvalid : Option Error → Type 0
IsInvalid r = (failure : Error) → r ≡ some failure → is_invalid_event failure ≡ true

invalid-IsInvalid : (reason : String) → IsInvalid (invalid reason)
unfolding is_invalid_event
invalid-IsInvalid reason failure h = rw (sym (some_inj h)) refl

refuse_if :
    (b : Bool) (reason : String) (s : Option Error)
    → IsInvalid s
    → IsInvalid (if b then invalid reason else s)
refuse_if true reason s h = invalid-IsInvalid reason
refuse_if false reason s h = h

-- Every error of `Validate`, that for a nil event included, is `ErrInvalidEvent`.
pub validate-is_invalid_event :
    (event : Option CdEvent) (failure : Error)
    → validate event ≡ some failure
    → is_invalid_event failure ≡ true
unfolding validate
validate-is_invalid_event none = invalid-IsInvalid _
validate-is_invalid_event (some e) = refuse_if (is_empty e.context.id) _ _ (
    refuse_if (is_empty e.context.type) _ _ (
      refuse_if (is_empty e.context.source) _ _ (
        refuse_if (is_zero e.context.timestamp) _ _ (
          refuse_if (is_empty e.subject.id) _ _
            (refuse_if (is_empty e.subject.type) _ _ (λ failure h. absurd (none_not_some h)))))))
