-- ===== src/Storage/Memory/Keys.antt =====
-- memory.go: `deploymentKey` tells two pairs of a service and an environment apart where the names
-- of the services hold no NUL character, and not beyond that.
use Prim.Native.String.{String}
use text.Mathlib.TextLemmas.{append_assoc}
use cdevents_otel_bridge.Prelude.{◌≡◌, ap, ◌∙◌, ◌<>◌, ◌==◌, eq_iff, ◌&&◌, arith}
use cdevents_otel_bridge.Text.Separators.{HasNo, separated_inj}
use cdevents_otel_bridge.Storage.Memory.{nul, deployment_key}

abbrev pub HasNoNul : String → Type 0
HasNoNul = HasNo 0

pub deployment_key_inj :
    (s t e f : String)
    → HasNoNul s
    → HasNoNul t
    → deployment_key s e ≡ deployment_key t f
    → (s ≡ t) × (e ≡ f)
unfolding deployment_key
deployment_key_inj s t e f h k p = separated_inj "\0" s t e f h k p

-- The test of two keys is the test of the two pairs.
pub deployment_key_test :
    (s t e f : String)
    → HasNoNul s
    → HasNoNul t
    → (deployment_key s e == deployment_key t f) ≡ (s == t && e == f)
deployment_key_test s t e f h k = ground (
  arith,
  eq_iff (deployment_key s e) (deployment_key t f),
  eq_iff s t,
  eq_iff e f,
  deployment_key_inj s t e f h k,
)

-- With a NUL character in a name, different pairs have one key.
pub deployment_key_collision :
    (a b c : String) → deployment_key (a <> nul <> b) c ≡ deployment_key a (b <> nul <> c)
unfolding deployment_key
deployment_key_collision a b c =
    append_assoc a (nul <> b) (nul <> c) ∙ ap (λ t. a <> t) (append_assoc nul b (nul <> c))
