-- ===== src/Storage/Redis/Scanning.antt =====
-- redis.go: the loops over the keys of a scan and of a set.
use mathlib.Core.List.Memᴰ
use cdevents_otel_bridge.Prelude.{
  ℕ, zero, suc, ◌≤◌, String, List, [], ◌∷◌, ◌++◌, some, true, false, ◌≡◌, ◌≢◌, refl, sym, ◌∙◌, ap,
  ◌↔◌, ◌⊎◌, inl, inr, Memᴰ, All, arith, eqb, Bool-cases,
}
use cdevents_otel_bridge.Errors.{
  Error, Result, ok, err, not_found, is_not_found, ◌>>=◌, Result-cases, ok_inj, err_not_ok,
}
use cdevents_otel_bridge.Models.{Deployment}
use cdevents_otel_bridge.Storage.Memory.Lookups.{live}
use cdevents_otel_bridge.Storage.Redis.{
  Client, Codec, RedisStorage, collect, read_deployment, scan_from,
}
use cdevents_otel_bridge.Storage.Redis.Server.{Iteration, last, more}

-- A read that finds something or nothing, and does not fail otherwise.
abbrev pub IsRead {ℓ} : {A : Type ℓ} → Result A → Type ℓ
IsRead {A = A} r = ((a : A) × (r ≡ ok a)) ⊎ (r ≡ err not_found)

module _ {ℓ} {A : Type ℓ} (read : String → Result A) where
  abbrev pub found_first : Result A → List A → List A
  found_first (ok a) others = a ∷ others
  found_first (err e) others = others

  -- What the reads of the keys find, one for each key of the list that has something.
  abbrev pub finds : List String → List A
  finds [] = []
  finds (key ∷ keys) = found_first (read key) (finds keys)

  module _ (key : String) (keys : List String) where
    collect_found :
        (a : A)
        → read key ≡ ok a
        → collect read (key ∷ keys) ≡ (collect read keys >>= (λ others. ok (a ∷ others)))
    unfolding collect
    collect_found a e = rw (e, collect) refl

    collect_skipped :
        (f : Error)
        → read key ≡ err f
        → is_not_found f ≡ true
        → collect read (key ∷ keys) ≡ collect read keys
    unfolding collect
    collect_skipped f e g = rw (e, collect, g) refl

    collect_failed :
        (f : Error) → read key ≡ err f → is_not_found f ≡ false → collect read (key ∷ keys) ≡ err f
    unfolding collect
    collect_failed f e g = rw (e, collect, g) refl

  -- The loop over two lists is the loop over the first and then over the second.
  collect-append :
      (keys rest : List String)
      → collect read (keys ++ rest)
        ≡ (collect read keys >>= (λ page. collect read rest >>= (λ others. ok (page ++ others))))
  unfolding collect
  collect-append [] rest = elim (Result-cases (collect read rest)) [
    | inl (found, e) ↦ rw e refl
    | inr (e, p) ↦ rw p refl
  ]
  collect-append (key ∷ keys) rest = elim (Result-cases (read key)) [
    | inl (a, e) ↦
        let here = collect_found key keys a e in
        let there = collect_found key (keys ++ rest) a e in
        let ih = collect-append keys rest in
        elim (Result-cases (collect read keys)) [
          | inl (page, p) ↦ elim (Result-cases (collect read rest)) [
            | inl (others, q) ↦ rw (there, here, ih, p, q) refl
            | inr (f, q) ↦ rw (there, here, ih, p, q) refl
          ]
          | inr (f, p) ↦ rw (there, here, ih, p) refl
        ]
    | inr (f, e) ↦ elim (Bool-cases (is_not_found f)) [
      | inl g ↦
          rw (collect_skipped key (keys ++ rest) f e g, collect_skipped key keys f e g)
            (collect-append keys rest)
      | inr g ↦ rw (collect_failed key (keys ++ rest) f e g, collect_failed key keys f e g) refl
    ]
  ]

  -- Where no read fails, the loop returns exactly what they found.
  pub collect-finds :
      (keys : List String)
      → All (λ key. IsRead (read key)) keys
      → (found : List A) × (collect read keys ≡ ok found)
        × (found ≡ finds keys)
        × ((a : A) → Memᴰ a found ↔ ((key : String) × Memᴰ key keys × (read key ≡ ok a)))
  unfolding collect is_not_found
  collect-finds [] h =
      ([], refl, refl, λ a. (λ q. absurd (Memᴰ.not-nil q), λ (key, q, _). absurd (Memᴰ.not-nil q)))
  collect-finds (key ∷ keys) (inl (b, e), hs) =
      let (found, p, same, exact) = collect-finds keys hs in
      (
        b ∷ found,
        rw (collect_found key keys b e, p) refl,
        rw e (ap (λ others. b ∷ others) same),
        λ a. (
          λ q. elim (Memᴰ.cases_cons q) [
            | inl same ↦ (key, Memᴰ.head refl, e ∙ ap ok (sym same))
            | inr r ↦ let (k, m, f) = (exact a).0 r in (k, Memᴰ.tail m, f)
          ],
          λ (k, m, f). elim (Memᴰ.cases_cons m) [
            | inl same ↦ Memᴰ.head (ok_inj (sym f ∙ ap read same ∙ e))
            | inr r ↦ Memᴰ.tail ((exact a).1 (k, r, f))
          ],
        ),
      )
  collect-finds (key ∷ keys) (inr e, hs) =
      let (found, p, same, exact) = collect-finds keys hs in
      (
        found,
        rw (collect_skipped key keys not_found e refl, p) refl,
        rw e same,
        λ a. (
          λ q. let (k, m, f) = (exact a).0 q in (k, Memᴰ.tail m, f),
          λ (k, m, f). elim (Memᴰ.cases_cons m) [
            | inl same ↦ absurd (err_not_ok (sym e ∙ ap read (sym same) ∙ f))
            | inr r ↦ (exact a).1 (k, r, f)
          ],
        ),
      )

-- The number of pages of an iteration.
abbrev pub pages :
    {S : Type 0} {client : Client S} {s : S} {pattern : String} {cursor : ℕ} {keys : List String}
    → Iteration client s pattern cursor keys
    → ℕ
pages (last _) = 1
pages (more _ _ rest) = suc (pages rest)

eqb_of_ne : (a b : ℕ) → a ≢ b → eqb a b ≡ false
eqb_of_ne a b h = ground (arith, h)

module _ {S : Type 0} (client : Client S) (codec : Codec Deployment) (r : RedisStorage S)
    (pattern : String) where
  -- With fuel for the pages of the iteration, the loop of `scanDeployments` comes to its end, and
  -- it returns what one loop over all keys of the iteration returns.
  pub scan_from-collect :
      (fuel cursor : ℕ) (keys : List String) (it : Iteration client r.server pattern cursor keys)
      → pages it ≤ fuel
      → scan_from client codec r live pattern fuel cursor
        ≡ some (collect (read_deployment client codec r live) keys)
  unfolding scan_from
  scan_from-collect zero cursor keys (last p) h = absurd (omega (arith, h))
  scan_from-collect zero cursor keys (more p n it) h = absurd (omega (arith, h))
  scan_from-collect (suc fuel) cursor keys (last p) h =
      elim (Result-cases (collect (read_deployment client codec r live) keys)) [
        | inl (page, e) ↦ rw (p, scan_from, e) refl
        | inr (f, e) ↦ rw (p, scan_from, e) refl
      ]
  scan_from-collect (suc fuel) cursor keys (more {next = next} {keys = first} {rest = rest} p n it)
        h =
      let read = read_deployment client codec r live in
      let ended = scan_from-collect fuel _ rest it (omega (arith, h)) in
      let joined = collect-append read first rest in
      let goes_on : eqb next 0 ≡ false = eqb_of_ne next 0 n in
      elim (Result-cases (collect read first)) [
        | inl (page, e) ↦ rw (p, scan_from, e, goes_on, ended, joined, e) refl
        | inr (f, e) ↦ rw (p, scan_from, e, joined, e) refl
      ]
