-- ===== src/Storage/Filter.antt =====
-- What `ListFilter.matches` and `applyFilter` of interface.go return.
use mathlib.Core.List.Permᴰ
use mathlib.Core.List.{append-nil}
use cdevents_otel_bridge.Prelude.{
  ℕ, zero, suc, ◌≤◌, List, [], ◌≡◌, ◌≢◌, refl, ◌⊎◌, inl, inr, ◌↔◌, true, Permᴰ, All, length, take,
  drop, take-append-drop, length-take, keep, mem-keep, keep-append-perm, ◌++◌, not, if◌then◌else◌,
  All-of_mem, All-take, Bool-cases, eq_iff, arith, ltb, ◌&&◌, ap, keep-perm,
}
use cdevents_otel_bridge.Prelude.Int.{ℤ, pos, negsuc}
use cdevents_otel_bridge.Time.{zero_time}
use cdevents_otel_bridge.Sorting.{sort, HasNoTies}
use cdevents_otel_bridge.Sorting.Laws.{
  sort-IsSorted, sort-perm, sort-eq_of_perm, keep-HasNoTies, mem-sort,
}
use cdevents_otel_bridge.Models.{Deployment}
use cdevents_otel_bridge.Storage.{ListFilter, matches, deployment_less, limit_to, apply_filter}
use cdevents_otel_bridge.Storage.Order.{deployment_less-IsOrder, IsNewer, deployment_less-IsNewer}
use cdevents_otel_bridge.Sorting.Pairs.{Pairwise, Pairwise-of_sorted}

-- A deployment passes the filter exactly when the environment is unset or equal to its own, and
-- `since` is unset or not later than its time.
pub matches_iff :
    (f : ListFilter) (d : Deployment)
    → (matches f d ≡ true) ↔ (
        ((f.environment ≡ "") ⊎ (d.environment ≡ f.environment))
        × ((f.since ≡ zero_time) ⊎ (f.since ≤ d.deployed_at)))
unfolding matches
matches_iff f d = ground (arith, eq_iff f.environment "", eq_iff d.environment f.environment)

limit_to-cases {ℓ} :
    {A : Type ℓ} (limit : ℤ) (xs : List A)
    → (limit_to limit xs ≡ xs) ⊎ ((n : ℕ) × (limit ≡ pos n) × (limit_to limit xs ≡ take n xs))
unfolding limit_to
limit_to-cases (negsuc n) xs = inl refl
limit_to-cases (pos n) xs = elim (Bool-cases (ltb 0 n && ltb n (length xs))) [
  | inl e ↦ inr (n, refl, rw e)
  | inr e ↦ inl (rw e)
]

pub limit_to-All {ℓ κ} :
    {A : Type ℓ} (P : A → Type κ) (limit : ℤ) (xs : List A) → All P xs → All P (limit_to limit xs)
limit_to-All P limit xs h = elim (limit_to-cases limit xs) [
  | inl e ↦ rw e h
  | inr (n, _, e) ↦ rw e (All-take P n xs h)
]

-- What a filter asks of a deployment.
abbrev pub Passes : ListFilter → Deployment → Type 0
Passes f d =
    ((f.environment ≡ "") ⊎ (d.environment ≡ f.environment))
    × ((f.since ≡ zero_time) ⊎ (f.since ≤ d.deployed_at))

-- What `applyFilter` promises of its result: the deployments it is given are those that it
-- returns, those that pass and are left behind the limit, and those that do not pass.
pub record IsListing (ds : List Deployment) (f : ListFilter) (result : List Deployment)
    : Type 0 where
  pub left : List Deployment
  pub refused : List Deployment
  pub parts : Permᴰ ((result ++ left) ++ refused) ds
  pub passes : All (Passes f) (result ++ left)
  pub fails : All (λ d. ¬ Passes f d) refused
  -- newest first, and none of those that are left is newer than one that is returned
  pub newest : Pairwise IsNewer (result ++ left)
  -- as many as a positive limit, or all
  pub limited :
      (n : ℕ)
      → f.limit ≡ pos (suc n)
      → (length result ≡ suc n) ⊎ ((length result ≤ suc n) × (left ≡ []))
  -- without a positive limit, all
  pub unlimited : ((n : ℕ) → f.limit ≢ pos (suc n)) → left ≡ []

-- The deployments behind the limit.
unfoldable behind : ℤ → List Deployment → List Deployment
behind (pos n) xs = if ltb 0 n && ltb n (length xs) then drop n xs else []
behind (negsuc n) xs = []

limit_to-append-behind :
    (limit : ℤ) (xs : List Deployment) → limit_to limit xs ++ behind limit xs ≡ xs
unfolding limit_to behind
limit_to-append-behind (negsuc n) xs = append-nil xs
limit_to-append-behind (pos n) xs = elim (Bool-cases (ltb 0 n && ltb n (length xs))) [
  | inl e ↦ rw e (take-append-drop n xs)
  | inr e ↦ rw e (append-nil xs)
]

limit_to-limited :
    (limit : ℤ) (xs : List Deployment) (n : ℕ)
    → limit ≡ pos (suc n)
    → (length (limit_to limit xs) ≡ suc n)
      ⊎ ((length (limit_to limit xs) ≤ suc n) × (behind limit xs ≡ []))
unfolding limit_to behind
limit_to-limited limit xs n e = rw e (elim (Bool-cases (ltb 0 (suc n) && ltb (suc n) (length xs))) [
  | inl h ↦ rw h (inl (length-take (suc n) xs (ground arith)))
  | inr h ↦ rw h (inr (ground arith, refl))
])

behind-unlimited :
    (limit : ℤ) (xs : List Deployment) → ((n : ℕ) → limit ≢ pos (suc n)) → behind limit xs ≡ []
unfolding behind
behind-unlimited (negsuc n) xs h = refl
behind-unlimited (pos zero) xs h = refl
behind-unlimited (pos (suc n)) xs h = absurd (h n refl)

module _ (ds : List Deployment) (f : ListFilter) where
  abbrev ordered : List Deployment
  ordered = sort deployment_less (keep (matches f) ds)

  whole : limit_to f.limit ordered ++ behind f.limit ordered ≡ ordered
  whole = limit_to-append-behind f.limit ordered

  refused-fails : All (λ d. ¬ Passes f d) (keep (λ d. not (matches f d)) ds)
  refused-fails =
      All-of_mem (λ d. ¬ Passes f d) _
        (λ d m p.
          let kept = ((mem-keep (λ d. not (matches f d)) d ds).0 m).1 in
          ground (arith, kept, (matches_iff f d).1 p))

  -- `applyFilter` splits the deployments that it is given, each counted as often as it comes, into
  -- those that it returns, those that it leaves, and the others. The first two pass the filter and
  -- are, one behind the other, newest first; the others do not pass. With a positive limit it
  -- returns as many as the limit, or fewer and leaves none; without one it leaves none.
  pub apply_filter-IsListing : IsListing ds f (apply_filter ds f)
  unfolding apply_filter
  apply_filter-IsListing = record {
    left = behind f.limit ordered;
    refused = keep (λ d. not (matches f d)) ds;
    parts = rw whole (
        Permᴰ.trans (Permᴰ.append_right _ (sort-perm deployment_less (keep (matches f) ds)))
          (keep-append-perm (matches f) ds));
    passes = rw whole (
        All-of_mem (Passes f) ordered (λ d m.
          (matches_iff f d).0
            ((mem-keep (matches f) d ds).0 ((mem-sort deployment_less d _).0 m)).1));
    fails = refused-fails;
    newest = rw whole (
        Pairwise-of_sorted IsNewer deployment_less ordered deployment_less-IsNewer
          (sort-IsSorted deployment_less deployment_less-IsOrder _));
    limited = limit_to-limited f.limit ordered;
    unlimited = behind-unlimited f.limit ordered;
  }

-- Where no two deployments tie, the order in which they come does not matter.
pub apply_filter_of_perm :
    {xs ys : List Deployment} (f : ListFilter)
    → Permᴰ xs ys
    → HasNoTies deployment_less xs
    → apply_filter xs f ≡ apply_filter ys f
unfolding apply_filter
apply_filter_of_perm {xs} f p h = ap (limit_to f.limit) (
    sort-eq_of_perm deployment_less deployment_less-IsOrder (keep-perm (matches f) p)
      (keep-HasNoTies deployment_less (matches f) xs h))
