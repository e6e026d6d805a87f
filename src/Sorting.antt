-- ===== src/Sorting.antt =====
-- `sort.SliceStable` of Go's standard library, by insertion. A stable sort has only one result, so
-- the way in which the library finds it does not matter. `less` is the comparison that the program
-- passes.
pub mod Laws
pub mod Pairs
use cdevents_otel_bridge.Prelude.{Bool, true, false, List, [], ◌∷◌, ◌≡◌, ◌⊎◌, All, if◌then◌else◌}

module _ {ℓ} {A : Type ℓ} (less : A → A → Bool) where
  unfoldable pub insert : A → List A → List A
  insert a [] = a ∷ []
  insert a (x ∷ xs) = let rest = insert a xs in if less x a then x ∷ rest else a ∷ x ∷ xs

  -- Elements that compare equal keep the order in which they came.
  unfoldable pub sort : List A → List A
  unfolding insert
  sort [] = []
  sort (x ∷ xs) = insert x (sort xs)

  -- A strict order whose ties are an equivalence.
  pub record IsOrder : Type ℓ where
    pub asymm : (a b : A) → less a b ≡ true → less b a ≡ false
    pub trans : (a b c : A) → less a b ≡ true → less b c ≡ true → less a c ≡ true
    pub neg_trans : (a b c : A) → less a b ≡ false → less b c ≡ false → less a c ≡ false

  -- No element is below one that stands before it.
  abbrev pub IsSorted : List A → Type ℓ
  IsSorted [] = Unit
  IsSorted (x ∷ xs) = All (λ y. less y x ≡ false) xs × IsSorted xs

  -- Of any two elements one is below the other.
  abbrev pub HasNoTies : List A → Type ℓ
  HasNoTies [] = Unit
  HasNoTies (x ∷ xs) = All (λ y. (less x y ≡ true) ⊎ (less y x ≡ true)) xs × HasNoTies xs
