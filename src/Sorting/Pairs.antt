-- ===== src/Sorting/Pairs.antt =====
-- Relations between each element of a list and those behind it.
use mathlib.Core.Path.{subst}
use cdevents_otel_bridge.Prelude.{Bool, false, List, [], ◌∷◌, ◌++◌, ◌≡◌, All, All-perm, Permᴰ}
use cdevents_otel_bridge.Sorting.{IsSorted}

module _ {ℓ κ} {A : Type ℓ} (R : A → A → Type κ) where
  -- Each element is so related to all that stand behind it.
  abbrev pub Pairwise : List A → Type κ
  Pairwise [] = Unit
  Pairwise (x ∷ xs) = All (R x) xs × Pairwise xs

  All-related :
      (less : A → A → Bool) (x : A) (xs : List A)
      → ((a b : A) → less b a ≡ false → R a b)
      → All (λ y. less y x ≡ false) xs
      → All (R x) xs
  All-related less x [] f h = tt
  All-related less x (y ∷ xs) f (h, hs) = (f x y h, All-related less x xs f hs)

  pub Pairwise-of_sorted :
      (less : A → A → Bool) (xs : List A)
      → ((a b : A) → less b a ≡ false → R a b)
      → IsSorted less xs
      → Pairwise xs
  Pairwise-of_sorted less [] f h = tt
  Pairwise-of_sorted less (x ∷ xs) f (h, hs) =
      (All-related less x xs f h, Pairwise-of_sorted less xs f hs)

  pub Pairwise-prefix : (xs ys : List A) → Pairwise (xs ++ ys) → Pairwise xs
  Pairwise-prefix [] ys h = tt
  Pairwise-prefix (x ∷ xs) ys (h, hs) = (front xs ys h, Pairwise-prefix xs ys hs)
    where
      front : (xs ys : List A) → All (R x) (xs ++ ys) → All (R x) xs
      front [] ys h = tt
      front (z ∷ zs) ys (h, hs) = (h, front zs ys hs)

  -- A relation that has no direction does not see the order.
  module _ (symmetric : (a b : A) → R a b → R b a) where
    pub Pairwise-perm : {xs ys : List A} → Permᴰ xs ys → Pairwise xs → Pairwise ys
    Pairwise-perm Permᴰ.nil h = tt
    Pairwise-perm (Permᴰ.cons {a = a} {b = b} {l₂ = l₂} e p) (h, hs) =
        (subst (λ z. All (R z) l₂) e (All-perm (R a) p h), Pairwise-perm p hs)
    Pairwise-perm (Permᴰ.swap {b = b} {b' = b'} {l = l} e f) ((h, hs), (k, ks)) =
        subst (λ z. Pairwise (z ∷ b' ∷ l)) f
          (subst (λ z. Pairwise (b ∷ z ∷ l)) e ((symmetric _ _ h, k), (hs, ks)))
    Pairwise-perm (Permᴰ.trans p q) h = Pairwise-perm q (Pairwise-perm p h)
