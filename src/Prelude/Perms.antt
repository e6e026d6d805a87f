-- ===== src/Prelude/Perms.antt =====
-- Permutations carry predicates on lists along.
use mathlib.Core.Path.{subst, ◌∙◌}
use mathlib.Core.List.{List, Permᴰ}
use mathlib.Core.List.{Memᴰ}
use mathlib.Core.Path.{refl}
use mathlib.Core.Bool.{Bool, not}
use mathlib.Core.Logic.{inl, inr}
use mathlib.Core.List.{◌∷◌, ◌++◌, []}
use mathlib.Core.List.Permᴰ
use cdevents_otel_bridge.Prelude.Tests.{Bool-cases}
use cdevents_otel_bridge.Prelude.Lists.{All, keep}

module _ {ℓ κ} {A : Type ℓ} (P : A → Type κ) where
  pub All-perm : {xs ys : List A} → Permᴰ xs ys → All P xs → All P ys
  All-perm Permᴰ.nil h = tt
  All-perm (Permᴰ.cons e p) (h, hs) = (subst P e h, All-perm p hs)
  All-perm (Permᴰ.swap e f) (h, (k, hs)) = (subst P f k, (subst P e h, hs))
  All-perm (Permᴰ.trans p q) h = All-perm q (All-perm p h)

module _ {ℓ} {A : Type ℓ} where
  pub Memᴰ-perm : {a : A} {xs ys : List A} → Permᴰ xs ys → Memᴰ a xs → Memᴰ a ys
  Memᴰ-perm Permᴰ.nil m = m
  Memᴰ-perm (Permᴰ.cons e p) (Memᴰ.head h) = Memᴰ.head (h ∙ e)
  Memᴰ-perm (Permᴰ.cons e p) (Memᴰ.tail m) = Memᴰ.tail (Memᴰ-perm p m)
  Memᴰ-perm (Permᴰ.swap e f) (Memᴰ.head h) = Memᴰ.tail (Memᴰ.head (h ∙ e))
  Memᴰ-perm (Permᴰ.swap e f) (Memᴰ.tail (Memᴰ.head h)) = Memᴰ.head (h ∙ f)
  Memᴰ-perm (Permᴰ.swap e f) (Memᴰ.tail (Memᴰ.tail m)) = Memᴰ.tail (Memᴰ.tail m)
  Memᴰ-perm (Permᴰ.trans p q) m = Memᴰ-perm q (Memᴰ-perm p m)

module _ {ℓ} {A : Type ℓ} (p : A → Bool) where
  -- The same first element, kept or not, over kept lists that are permutations.
  keep-cons-perm :
      (x : A) (xs ys : List A)
      → Permᴰ (keep p xs) (keep p ys)
      → Permᴰ (keep p (x ∷ xs)) (keep p (x ∷ ys))
  keep-cons-perm x xs ys q = elim (Bool-cases (p x)) [
    | inl h ↦ rw h (Permᴰ.cons refl q)
    | inr h ↦ rw h q
  ]

  keep-swap-perm : (a b : A) (l : List A) → Permᴰ (keep p (a ∷ b ∷ l)) (keep p (b ∷ a ∷ l))
  keep-swap-perm a b l = elim (Bool-cases (p a)) [
    | inl h ↦ elim (Bool-cases (p b)) [
      | inl k ↦ rw (h, k) (Permᴰ.swap refl refl)
      | inr k ↦ rw (h, k) (Permᴰ.refl _)
    ]
    | inr h ↦ elim (Bool-cases (p b)) [
      | inl k ↦ rw (h, k) (Permᴰ.refl _)
      | inr k ↦ rw (h, k) (Permᴰ.refl _)
    ]
  ]

  pub keep-perm : {xs ys : List A} → Permᴰ xs ys → Permᴰ (keep p xs) (keep p ys)
  keep-perm Permᴰ.nil = Permᴰ.nil
  keep-perm (Permᴰ.cons {a = a} {l₁ = l₁} {l₂ = l₂} e q) =
      subst (λ z. Permᴰ (keep p (a ∷ l₁)) (keep p (z ∷ l₂))) e
        (keep-cons-perm a l₁ l₂ (keep-perm q))
  keep-perm (Permᴰ.swap {a = a} {b = b} {b' = b'} {l = l} e f) =
      subst (λ z. Permᴰ (keep p (a ∷ b ∷ l)) (keep p (z ∷ b' ∷ l))) f
        (subst (λ z. Permᴰ (keep p (a ∷ b ∷ l)) (keep p (b ∷ z ∷ l))) e (keep-swap-perm a b l))
  keep-perm (Permᴰ.trans q r) = Permᴰ.trans (keep-perm q) (keep-perm r)

  -- What is kept, and then what is not, is the list in another order.
  pub keep-append-perm : (xs : List A) → Permᴰ (keep p xs ++ keep (λ x. not (p x)) xs) xs
  keep-append-perm [] = Permᴰ.nil
  keep-append-perm (x ∷ xs) = elim (Bool-cases (p x)) [
    | inl h ↦ rw h (Permᴰ.cons refl (keep-append-perm xs))
    | inr h ↦
        rw h (Permᴰ.trans (Permᴰ.middle x (keep p xs) _) (Permᴰ.cons refl (keep-append-perm xs)))
  ]
