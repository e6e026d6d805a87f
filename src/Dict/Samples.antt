-- ===== src/Dict/Samples.antt =====
-- Two orders in which a `range` may visit a map, for the tests.
use mathlib.Core.List.Permᴰ
use mathlib.Core.List.{reverse}
use cdevents_otel_bridge.Dict.{MapRange}

abbrev pub in_order {ℓ} : {V : Type ℓ} → MapRange V
in_order = record { visit = λ vs. vs; visit-perm = Permᴰ.refl }

abbrev pub reversed {ℓ} : {V : Type ℓ} → MapRange V
reversed = record { visit = reverse; visit-perm = Permᴰ.reverse }
