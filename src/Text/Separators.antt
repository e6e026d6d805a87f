-- ===== src/Text/Separators.antt =====
-- Texts that are joined at a separator of one character, and texts with a prefix.
use Prim.Native.Char.{Char, code}
use Prim.Native.String.{String, [], ◌∷◌}
use text.Mathlib.TextLemmas.{
  nil-append, cons-append, append_cancel_left, head-eq_of_cons-eq, tail-eq_of_cons-eq,
}
use cdevents_otel_bridge.Prelude.{
  ◌≡◌, ◌≢◌, refl, sym, ap, ◌∙◌, ◌<>◌, ℕ, true, false_not_true, arith,
}
use cdevents_otel_bridge.Text.{has_prefix}

abbrev pub HasNo : ℕ → String → Type 0
HasNo c [] = Unit
HasNo c (d ∷ s) = (code d ≢ c) × HasNo c s

pub HasNo-append : (c : ℕ) (s t : String) → HasNo c s → HasNo c t → HasNo c (s <> t)
HasNo-append c [] t h k = rw nil-append k
HasNo-append c (d ∷ s) t h k = rw cons-append (h.0, HasNo-append c s t h.1 k)

-- A text behind the first separator is split off at the same place.
pub separated_inj :
    (c : Char) (s t e f : String)
    → HasNo (code c) s
    → HasNo (code c) t
    → s <> (c ∷ []) <> e ≡ t <> (c ∷ []) <> f
    → (s ≡ t) × (e ≡ f)
separated_inj c [] [] e f h k p =
    (refl, append_cancel_left (c ∷ []) e f (rw (nil-append, nil-append) at p))
separated_inj c [] (d ∷ t) e f h k p =
    absurd
      (k.0 (sym (ap code (head-eq_of_cons-eq (rw (nil-append, cons-append, cons-append) at p)))))
separated_inj c (d ∷ s) [] e f h k p = absurd (
    h.0 (sym (ap code (head-eq_of_cons-eq (rw (nil-append, cons-append, cons-append) at (sym p))))))
separated_inj c (x ∷ s) (d ∷ t) e f h k p =
    let q : x ∷ (s <> (c ∷ []) <> e) ≡ d ∷ (t <> (c ∷ []) <> f) =
      sym (cons-append x s _) ∙ p ∙ cons-append d t _ in
    let (same, rest) = separated_inj c s t e f h.1 k.1 (tail-eq_of_cons-eq q) in
    (λ i. head-eq_of_cons-eq q i ∷ same i, rest)

pub has_prefix-append : (p s : String) → has_prefix (p <> s) p ≡ true
unfolding has_prefix
has_prefix-append [] s = refl
has_prefix-append (c ∷ p) s = rw (cons-append, has_prefix-append p s) (ground arith)

-- What has a prefix has every prefix of the prefix.
pub has_prefix-of_append : (k p q : String) → has_prefix k (p <> q) ≡ true → has_prefix k p ≡ true
unfolding has_prefix
has_prefix-of_append [] [] q h = refl
has_prefix-of_append (c ∷ k) [] q h = refl
has_prefix-of_append [] (d ∷ p) q h = absurd (false_not_true (rw cons-append at h))
has_prefix-of_append (c ∷ k) (d ∷ p) q h =
    let h' = rw cons-append at h in ground (arith, has_prefix-of_append k p q)
