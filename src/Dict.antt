-- ===== src/Dict.antt =====
-- Go's `map[string]V`. The entries stand in the order in which their keys were first set, which no
-- function of the program can see: a `range` over a map goes through `MapRange`.
pub mod Laws
pub mod Ties
pub mod Samples
use cdevents_otel_bridge.Prelude.{
  String, Option, none, some, List, [], ◌∷◌, map, ◌==◌, ◌≡◌, if◌then◌else◌, All, Permᴰ, ◌≢◌,
}

abbrev pub Dict {ℓ} : Type ℓ → Type ℓ
Dict V = List (String × V)

module _ {ℓ} {V : Type ℓ} where
  -- v, ok := m[k]
  unfoldable pub get : Dict V → String → Option V
  get [] k = none
  get ((j, v) ∷ m) k = if j == k then some v else get m k

  -- m[k] = v
  unfoldable pub put : Dict V → String → V → Dict V
  put [] k v = (k, v) ∷ []
  put ((j, w) ∷ m) k v = if j == k then (j, v) ∷ m else (j, w) ∷ put m k v

  -- delete(m, k)
  unfoldable pub remove : Dict V → String → Dict V
  remove [] k = []
  remove ((j, w) ∷ m) k = let rest = remove m k in if j == k then rest else (j, w) ∷ rest

  abbrev pub values : Dict V → List V
  values = map (λ e. e.1)

  abbrev pub HasDistinctKeys : Dict V → Type 0
  HasDistinctKeys [] = Unit
  HasDistinctKeys ((k, v) ∷ m) = All (λ e. e.0 ≢ k) m × HasDistinctKeys m

-- The order in which a `range` visits the values of a map: any order, and each value once.
pub record MapRange {ℓ} (V : Type ℓ) : Type ℓ where
  pub visit : List V → List V
  pub visit-perm : (vs : List V) → Permᴰ (visit vs) vs
