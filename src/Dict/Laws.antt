-- ===== src/Dict/Laws.antt =====
-- The laws of a map: what each update does to each lookup, and that keys stay distinct.
use mathlib.Core.List.Memᴰ
use mathlib.Core.Path.{subst}
use mathlib.Core.List.Permᴰ
use cdevents_otel_bridge.Prelude.{
  String, none, some, [], ◌∷◌, ◌==◌, ◌≡◌, refl, ◌≢◌, if◌then◌else◌, All, arith, eq_iff, Memᴰ, sym,
  ap, mem-All, Memᴰ-perm, ◌↔◌, Bool-cases, inl, inr,
}
use cdevents_otel_bridge.Dict.{Dict, get, put, remove, values, HasDistinctKeys, MapRange}

module _ {ℓ} {V : Type ℓ} where
  pub get-put :
      (m : Dict V) (k : String) (v : V) (j : String)
      → get (put m k v) j ≡ (if k == j then some v else get m j)
  unfolding get put
  get-put [] k v j = refl
  get-put ((i, w) ∷ m) k v j = ground (arith, eq_iff i k, eq_iff i j, eq_iff k j, get-put m k v j)

  pub get-remove :
      (m : Dict V) (k j : String) → get (remove m k) j ≡ (if k == j then none else get m j)
  unfolding get remove
  get-remove [] k j = ground arith
  get-remove ((i, w) ∷ m) k j = ground (arith, eq_iff i k, eq_iff i j, eq_iff k j, get-remove m k j)

  pub All-put {κ} :
      (P : String → V → Type κ) (m : Dict V) (k : String) (v : V)
      → All (λ e. P e.0 e.1) m
      → P k v
      → All (λ e. P e.0 e.1) (put m k v)
  unfolding put
  All-put P [] k v h p = (p, tt)
  All-put P ((i, w) ∷ m) k v (h, hs) p = elim (Bool-cases (i == k)) [
    | inl e ↦ rw e (subst (λ z. P z v) (sym ((eq_iff i k).0 e)) p, hs)
    | inr e ↦ rw e (h, All-put P m k v hs p)
  ]

  pub put-HasDistinctKeys :
      (m : Dict V) (k : String) (v : V) → HasDistinctKeys m → HasDistinctKeys (put m k v)
  unfolding put
  put-HasDistinctKeys [] k v h = (tt, tt)
  put-HasDistinctKeys ((j, w) ∷ m) k v (h, hs) = elim (Bool-cases (j == k)) [
    | inl e ↦ rw e (h, hs)
    | inr e ↦ rw e (
      All-put (λ i _. i ≢ j) m k v h (λ p. cc ((eq_iff j k).1 (sym p))),
      put-HasDistinctKeys m k v hs,
    )
  ]

  -- With distinct keys, a lookup finds exactly the entries.
  pub get-of_mem :
      (m : Dict V) (k : String) (v : V) → HasDistinctKeys m → Memᴰ (k, v) m → get m k ≡ some v
  unfolding get
  get-of_mem [] k v h q = absurd (Memᴰ.not-nil q)
  get-of_mem ((j, w) ∷ m) k v (h, hs) q = elim (Memᴰ.cases_cons q) [
    | inl e ↦
        let same : j ≡ k = sym (ap (λ p. p.0) e) in
        rw ((eq_iff j k).1 same) (ap some (sym (ap (λ p. p.1) e)))
    | inr r ↦
        let other : j ≢ k = λ p. mem-All (λ e. e.0 ≢ j) m h r (sym p) in
        ground (arith, eq_iff j k, get-of_mem m k v hs r)
  ]

  pub mem-of_get : (m : Dict V) (k : String) (v : V) → get m k ≡ some v → Memᴰ (k, v) m
  unfolding get
  mem-of_get [] k v h = absurd (ground arith)
  mem-of_get ((j, w) ∷ m) k v h = elim (Bool-cases (j == k)) [
    | inl e ↦
        let same : w ≡ v = ground arith in Memᴰ.head (λ i. (sym ((eq_iff j k).0 e) i, sym same i))
    | inr e ↦ Memᴰ.tail (mem-of_get m k v (ground arith))
  ]

module _ {ℓ} {V : Type ℓ} (range : MapRange V) (m : Dict V) where
  -- A `range` visits exactly the values of the map.
  pub range_visits : (v : V) → Memᴰ v (range.visit (values m)) ↔ Memᴰ v (values m)
  range_visits v = (
    λ q. Memᴰ-perm (range.visit-perm (values m)) q,
    λ q. Memᴰ-perm (Permᴰ.symm (range.visit-perm (values m))) q,
  )

module _ {ℓ} {V : Type ℓ} where
  pub mem-values : (m : Dict V) (k : String) (v : V) → Memᴰ (k, v) m → Memᴰ v (values m)
  mem-values m k v q = Memᴰ.map (λ e. e.1) q

  -- A value stands under some key.
  pub key_of_value : (m : Dict V) (v : V) → Memᴰ v (values m) → (k : String) × Memᴰ (k, v) m
  key_of_value m v q =
      let ((k, w), r, e) = Memᴰ.of_map (λ (e : String × V). e.1) m q in
      (k, subst (λ z. Memᴰ (k, z) m) e r)
