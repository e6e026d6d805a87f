-- ===== src/Sorting/Laws.antt =====
-- The result of a sort: it is in order, it holds the same elements, and where there are no ties it
-- does not depend on the order in which the elements came.
use mathlib.Core.Path.{subst}
use mathlib.Core.List.Memᴰ
use mathlib.Core.List.Permᴰ
use mathlib.Core.List.{Permᴰ, Memᴰ}
use cdevents_otel_bridge.Prelude.{
  Bool, true, false, List, [], ◌∷◌, ◌≡◌, refl, sym, ◌∙◌, ◌⊎◌, inl, inr, All, All-perm, Bool-cases,
  arith, ℕ, zero, suc, take, keep, All-take, mem-All, keep-All, Memᴰ-perm, ◌↔◌,
}
use cdevents_otel_bridge.Sorting.{insert, sort, IsOrder, IsSorted, HasNoTies}

module _ {ℓ} {A : Type ℓ} (less : A → A → Bool) where
  insert-perm : (a : A) (xs : List A) → Permᴰ (insert less a xs) (a ∷ xs)
  unfolding insert
  insert-perm a [] = Permᴰ.refl _
  insert-perm a (x ∷ xs) = elim (Bool-cases (less x a)) [
    | inl h ↦ rw h (Permᴰ.trans (Permᴰ.cons refl (insert-perm a xs)) (Permᴰ.swap refl refl))
    | inr h ↦ rw h (Permᴰ.refl _)
  ]

  pub sort-perm : (xs : List A) → Permᴰ (sort less xs) xs
  unfolding sort
  sort-perm [] = Permᴰ.nil
  sort-perm (x ∷ xs) = Permᴰ.trans (insert-perm x (sort less xs)) (Permᴰ.cons refl (sort-perm xs))

  pub All-sort {κ} : (P : A → Type κ) (xs : List A) → All P xs → All P (sort less xs)
  All-sort P xs h = All-perm P (Permᴰ.symm (sort-perm xs)) h

  module _ (order : IsOrder less) where
    All-below :
        (a x : A) (xs : List A)
        → less x a ≡ false
        → All (λ y. less y x ≡ false) xs
        → All (λ y. less y a ≡ false) xs
    All-below a x [] h k = tt
    All-below a x (y ∷ ys) h (k, ks) = (order.neg_trans y x a k h, All-below a x ys h ks)

    insert-IsSorted : (a : A) (xs : List A) → IsSorted less xs → IsSorted less (insert less a xs)
    unfolding insert
    insert-IsSorted a [] h = (tt, tt)
    insert-IsSorted a (x ∷ xs) (h, hs) = elim (Bool-cases (less x a)) [
      | inl e ↦ rw e (
        All-perm (λ y. less y x ≡ false) (Permᴰ.symm (insert-perm a xs)) (order.asymm x a e, h),
        insert-IsSorted a xs hs,
      )
      | inr e ↦ rw e ((e, All-below a x xs e h), (h, hs))
    ]

    pub sort-IsSorted : (xs : List A) → IsSorted less (sort less xs)
    unfolding sort
    sort-IsSorted [] = tt
    sort-IsSorted (x ∷ xs) = insert-IsSorted x (sort less xs) (sort-IsSorted xs)

    insert_comm :
        (a b : A) (xs : List A)
        → less a b ≡ true
        → insert less a (insert less b xs) ≡ insert less b (insert less a xs)
    unfolding insert
    insert_comm a b [] h = ground (arith, order.asymm a b)
    insert_comm a b (x ∷ xs) h =
        ground (arith, order.asymm a b, order.trans x a b, insert_comm a b xs h)

    insert_comm_untied :
        (a b : A) (xs : List A)
        → (less a b ≡ true) ⊎ (less b a ≡ true)
        → insert less a (insert less b xs) ≡ insert less b (insert less a xs)
    insert_comm_untied a b xs (inl h) = insert_comm a b xs h
    insert_comm_untied a b xs (inr h) = sym (insert_comm b a xs h)

    pub HasNoTies-perm : {xs ys : List A} → Permᴰ xs ys → HasNoTies less xs → HasNoTies less ys
    HasNoTies-perm Permᴰ.nil h = tt
    HasNoTies-perm (Permᴰ.cons {a = a} {b = b} {l₂ = l₂} e p) (h, hs) = (
      subst (λ z. All (λ y. (less z y ≡ true) ⊎ (less y z ≡ true)) l₂) e
          (All-perm (λ y. (less a y ≡ true) ⊎ (less y a ≡ true)) p h),
      HasNoTies-perm p hs,
    )
    HasNoTies-perm (Permᴰ.swap {b = b} {b' = b'} {l = l} e f) ((h, hs), (k, ks)) =
        subst (λ z. HasNoTies less (z ∷ b' ∷ l)) f
          (subst (λ z. HasNoTies less (b ∷ z ∷ l)) e ((flip h, k), (hs, ks)))
      where
        flip : {p q : Type 0} → p ⊎ q → q ⊎ p
        flip (inl u) = inr u
        flip (inr u) = inl u
    HasNoTies-perm (Permᴰ.trans p q) h = HasNoTies-perm q (HasNoTies-perm p h)

    pub sort-eq_of_perm :
        {xs ys : List A} → Permᴰ xs ys → HasNoTies less xs → sort less xs ≡ sort less ys
    unfolding sort
    sort-eq_of_perm Permᴰ.nil h = refl
    sort-eq_of_perm (Permᴰ.cons {a = a} {b = b} e p) (h, hs) = cc (e, sort-eq_of_perm p hs)
    sort-eq_of_perm (Permᴰ.swap {a = a} {b = b} {l = l} e f) ((h, hs), (k, ks)) =
        cc (insert_comm_untied a b (sort less l) h, e, f)
    sort-eq_of_perm (Permᴰ.trans p q) h =
        sort-eq_of_perm p h ∙ sort-eq_of_perm q (HasNoTies-perm p h)

module _ {ℓ} {A : Type ℓ} (less : A → A → Bool) where
  pub IsSorted-take : (n : ℕ) (xs : List A) → IsSorted less xs → IsSorted less (take n xs)
  IsSorted-take zero xs h = tt
  IsSorted-take (suc n) [] h = tt
  IsSorted-take (suc n) (x ∷ xs) (h, hs) =
      (All-take (λ y. less y x ≡ false) n xs h, IsSorted-take n xs hs)

  -- Of a list in order, an element is among the first n, or it is below none of them.
  pub take_split :
      (n : ℕ) (xs : List A) (a : A)
      → IsSorted less xs
      → Memᴰ a xs
      → Memᴰ a (take n xs) ⊎ All (λ y. less a y ≡ false) (take n xs)
  take_split zero xs a h m = inr tt
  take_split (suc n) [] a h m = absurd (Memᴰ.not-nil m)
  take_split (suc n) (x ∷ xs) a (h, hs) m = elim (Memᴰ.cases_cons m) [
    | inl e ↦ inl (Memᴰ.head e)
    | inr r ↦ elim (take_split n xs a hs r) [
      | inl k ↦ inl (Memᴰ.tail k)
      | inr k ↦ inr (mem-All (λ y. less y x ≡ false) xs h r, k)
    ]
  ]

  pub keep-HasNoTies : (p : A → Bool) (xs : List A) → HasNoTies less xs → HasNoTies less (keep p xs)
  keep-HasNoTies p [] h = tt
  keep-HasNoTies p (x ∷ xs) (h, hs) = elim (Bool-cases (p x)) [
    | inl e ↦
        rw e (keep-All p (λ y. (less x y ≡ true) ⊎ (less y x ≡ true)) xs h, keep-HasNoTies p xs hs)
    | inr e ↦ rw e (keep-HasNoTies p xs hs)
  ]

  pub mem-sort : (a : A) (xs : List A) → Memᴰ a (sort less xs) ↔ Memᴰ a xs
  mem-sort a xs =
      (λ m. Memᴰ-perm (sort-perm less xs) m, λ m. Memᴰ-perm (Permᴰ.symm (sort-perm less xs)) m)
