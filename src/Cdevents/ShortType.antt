-- ===== src/Cdevents/ShortType.antt =====
-- types.go: `ShortType`, `isVersionSegment` and `IsDeployment`.
use Prim.Native.Char.{code}
use mathlib.Core.List.{reverse}
use cdevents_otel_bridge.Prelude.{
  String, List, ◌∷◌, Bool, true, false, ◌&&◌, ◌||◌, ◌==◌, ◌<>◌, eqb, is_empty, if◌then◌else◌,
}
use cdevents_otel_bridge.Text.{is_digit, trim_space, split}
use cdevents_otel_bridge.Cdevents.{
  CdEvent, kind_service_deployed, kind_service_upgraded, kind_service_rolledback,
}

-- the loop over the characters of a segment
unfoldable pub all_digits : String → Bool
all_digits String.[] = true
all_digits (String.◌∷◌ r s) = is_digit (code r) && all_digits s

-- what is left of a segment after its `v`, if it has one
unfoldable pub without_v : String → String
without_v String.[] = String.[]
without_v (String.◌∷◌ c s) = if eqb (code c) b'v' || eqb (code c) b'V' then s else String.◌∷◌ c s

unfoldable pub is_version_segment : String → Bool
unfolding all_digits without_v
is_version_segment s =
    if is_empty s
    then false
    else let digits = without_v s in if is_empty digits then false else all_digits digits

-- the loop that drops version segments; the last part stands first
unfoldable pub drop_versions : List String → List String
drop_versions (last ∷ p ∷ q ∷ parts) =
    let shorter = drop_versions (p ∷ q ∷ parts) in
    if is_version_segment last then shorter else last ∷ p ∷ q ∷ parts
drop_versions parts = parts

-- the last two parts joined by a dot, or the text itself; the last part stands first
unfoldable pub last_two : List String → String → String
last_two (last ∷ previous ∷ parts) event_type = previous <> "." <> last
last_two parts event_type = event_type

-- the test for a type string of the specification
unfoldable pub short_type_of_parts : List String → String → String
unfolding drop_versions last_two
short_type_of_parts (a ∷ b ∷ subject ∷ predicate ∷ parts) event_type =
    if a == "dev" && b == "cdevents"
    then subject <> "." <> predicate
    else last_two (drop_versions (reverse (a ∷ b ∷ subject ∷ predicate ∷ parts))) event_type
short_type_of_parts parts event_type = last_two (drop_versions (reverse parts)) event_type

unfoldable pub short_type : String → String
unfolding short_type_of_parts is_version_segment trim_space split
short_type event_type = short_type_of_parts (split b'.' (trim_space event_type)) event_type

-- the cases of a `switch` that name the three deployment kinds
unfoldable pub is_deployment_kind : String → Bool
is_deployment_kind kind =
    kind == kind_service_deployed
    || kind == kind_service_upgraded
    || kind == kind_service_rolledback

unfoldable pub is_deployment : CdEvent → Bool
unfolding is_deployment_kind
is_deployment e = is_deployment_kind (short_type e.context.type)
