-- ===== src/Storage/Latest/Unique.antt =====
-- interface.go: `latestDeployment` of two lists with the same deployments.
use mathlib.Core.List.Memᴰ
use cdevents_otel_bridge.Prelude.{
  List, [], ◌∷◌, false, ◌≡◌, refl, sym, ◌∙◌, ap, ◌↔◌, ◌⊎◌, inl, inr, Memᴰ, mem-All,
}
use cdevents_otel_bridge.Errors.{ok}
use cdevents_otel_bridge.Sorting.{sort, IsSorted}
use cdevents_otel_bridge.Sorting.Laws.{sort-IsSorted, mem-sort}
use cdevents_otel_bridge.Models.{Deployment}
use cdevents_otel_bridge.Storage.{deployment_less, first_or_not_found, latest_deployment}
use cdevents_otel_bridge.Storage.Order.{deployment_less-IsOrder}
use cdevents_otel_bridge.Storage.Latest.{latest_deployment_of_sorted}

-- The first of two lists with the same elements, of which no two are tied, is the same.
module _ (xs ys : List Deployment) (same : (d : Deployment) → Memᴰ d xs ↔ Memᴰ d ys)
    (untied : (a b : Deployment)
      → Memᴰ a xs
      → Memᴰ b xs
      → deployment_less a b ≡ false
      → deployment_less b a ≡ false
      → a ≡ b) where
  least :
      (zs : List Deployment) (z a : Deployment)
      → IsSorted deployment_less (z ∷ zs)
      → Memᴰ a (z ∷ zs)
      → (a ≡ z) ⊎ (deployment_less a z ≡ false)
  least zs z a (h, _) m = elim (Memᴰ.cases_cons m) [
    | inl e ↦ inl e
    | inr r ↦ inr (mem-All (λ y. deployment_less y z ≡ false) zs h r)
  ]

  first_unique :
      (us vs : List Deployment)
      → IsSorted deployment_less us
      → IsSorted deployment_less vs
      → ((d : Deployment) → Memᴰ d us ↔ Memᴰ d xs)
      → ((d : Deployment) → Memᴰ d vs ↔ Memᴰ d xs)
      → first_or_not_found us ≡ first_or_not_found vs
  first_unique [] [] s t p q = refl
  first_unique [] (v ∷ vs) s t p q = absurd (Memᴰ.not-nil ((p v).1 ((q v).0 (Memᴰ.head refl))))
  first_unique (u ∷ us) [] s t p q = absurd (Memᴰ.not-nil ((q u).1 ((p u).0 (Memᴰ.head refl))))
  first_unique (u ∷ us) (v ∷ vs) s t p q =
      let u_in = (p u).0 (Memᴰ.head refl) in
      let v_in = (q v).0 (Memᴰ.head refl) in
      elim (least vs v u t ((q u).1 u_in)) [
        | inl e ↦ ap ok e
        | inr h ↦ elim (least us u v s ((p v).1 v_in)) [
          | inl e ↦ ap ok (sym e)
          | inr k ↦ ap ok (untied u v u_in v_in h k)
        ]
      ]

  pub latest_unique : latest_deployment xs ≡ latest_deployment ys
  latest_unique =
      latest_deployment_of_sorted xs
      ∙ first_unique (sort deployment_less xs) (sort deployment_less ys)
          (sort-IsSorted deployment_less deployment_less-IsOrder xs)
          (sort-IsSorted deployment_less deployment_less-IsOrder ys)
          (λ d. mem-sort deployment_less d xs)
          (λ d. (
            λ m. (same d).1 ((mem-sort deployment_less d ys).0 m),
            λ m. (mem-sort deployment_less d ys).1 ((same d).0 m),
          ))
      ∙ sym (latest_deployment_of_sorted ys)
