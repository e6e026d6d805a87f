-- ===== src/Dict/Ties.antt =====
-- A map that holds each value under the value's own key holds no two values that tie in an order that
-- tells keys apart. So a sort of its values does not depend on how the map is ranged over.
use cdevents_otel_bridge.Prelude.{
  String, [], ◌∷◌, ◌≡◌, ◌≢◌, sym, ◌∙◌, ◌⊎◌, inl, inr, Bool, true, false, All, Bool-cases, Permᴰ,
}
use mathlib.Core.List.Permᴰ
use cdevents_otel_bridge.Dict
use cdevents_otel_bridge.Dict.{Dict, HasDistinctKeys, MapRange}
use cdevents_otel_bridge.Sorting.{sort, IsOrder, HasNoTies}
use cdevents_otel_bridge.Sorting.Pairs.{Pairwise}
use cdevents_otel_bridge.Sorting.Laws.{HasNoTies-perm, sort-eq_of_perm}

-- Each entry stands under the key of its value.
abbrev pub IsKeyed {ℓ} : {V : Type ℓ} → (V → String) → Dict V → Type 0
IsKeyed key m = All (λ e. e.0 ≡ key e.1) m

module _ {ℓ} {V : Type ℓ} (less : V → V → Bool) (key : V → String)
    (connected : (a b : V) → less a b ≡ false → less b a ≡ false → key a ≡ key b) where
  untied : (a b : V) → key a ≢ key b → (less a b ≡ true) ⊎ (less b a ≡ true)
  untied a b h = elim (Bool-cases (less a b)) [
    | inl p ↦ inl p
    | inr p ↦ elim (Bool-cases (less b a)) [
      | inl q ↦ inr q
      | inr q ↦ absurd (h (connected a b p q))
    ]
  ]

  untied_with :
      (k : String) (v : V) (m : Dict V)
      → k ≡ key v
      → All (λ e. e.0 ≢ k) m
      → IsKeyed key m
      → All (λ y. (less v y ≡ true) ⊎ (less y v ≡ true)) (Dict.values m)
  untied_with k v [] p h q = tt
  untied_with k v ((j, w) ∷ m) p (h, hs) (q, qs) =
      (untied v w (λ e. h (q ∙ sym e ∙ sym p)), untied_with k v m p hs qs)

  -- The values of a map in which each stands once, under its own key, do not tie.
  pub values-HasNoTies :
      (m : Dict V) → HasDistinctKeys m → IsKeyed key m → HasNoTies less (Dict.values m)
  values-HasNoTies [] h k = tt
  values-HasNoTies ((k, v) ∷ m) (h, hs) (q, qs) =
      (untied_with k v m q h qs, values-HasNoTies m hs qs)

  pub sort_ignores_range :
      (first second : MapRange V) (m : Dict V)
      → IsOrder less
      → HasDistinctKeys m
      → IsKeyed key m
      → sort less (first.visit (Dict.values m)) ≡ sort less (second.visit (Dict.values m))
  sort_ignores_range first second m order h k =
      sort-eq_of_perm less order
        (Permᴰ.trans (first.visit-perm _) (Permᴰ.symm (second.visit-perm _)))
        (HasNoTies-perm less order (Permᴰ.symm (first.visit-perm _)) (values-HasNoTies m h k))

module _ {ℓ} {V : Type ℓ} (key : V → String) where
  apart_from :
      (k : String) (v : V) (m : Dict V)
      → k ≡ key v
      → All (λ e. e.0 ≢ k) m
      → IsKeyed key m
      → All (λ w. key v ≢ key w) (Dict.values m)
  apart_from k v [] p h q = tt
  apart_from k v ((j, w) ∷ m) p (h, hs) (q, qs) =
      ((λ e. h (q ∙ sym e ∙ sym p)), apart_from k v m p hs qs)

  -- The values of a map in which each stands once, under its own key, have keys of their own.
  pub values-Pairwise :
      (m : Dict V)
      → HasDistinctKeys m
      → IsKeyed key m
      → Pairwise (λ v w. key v ≢ key w) (Dict.values m)
  values-Pairwise [] h k = tt
  values-Pairwise ((k, v) ∷ m) (h, hs) (q, qs) = (apart_from k v m q h qs, values-Pairwise m hs qs)
