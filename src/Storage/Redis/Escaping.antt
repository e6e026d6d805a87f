-- ===== src/Storage/Redis/Escaping.antt =====
-- redis.go: `escapeKeyPart`.
use Prim.Native.Char.{Char, code}
use Prim.Native.String.{[], ◌∷◌}
use text.Mathlib.TextLemmas.{
  nil-append, cons-append, append_assoc, cons-ne-nil, head-eq_of_cons-eq, tail-eq_of_cons-eq,
}
use text.Mathlib.TextEquality.{Char-path}
use cdevents_otel_bridge.Prelude.{
  ℕ, String, none, some, true, ◌≡◌, ◌≢◌, refl, sym, ap, ◌∙◌, ◌<>◌, eqb, arith, Bool-cases,
  Option-cases, if◌then◌else◌, inl, inr, ◌⊎◌, some_inj, none_not_some, ◌+◌, ◌-◌, ◌*◌, leb,
}
use mathlib.Core.Path.{subst}
use cdevents_otel_bridge.Text.Separators.{HasNo, HasNo-append}
use cdevents_otel_bridge.Storage.Redis.{escape_char, escape_key_part}
use cdevents_otel_bridge.Storage.Redis.Server.{IsLiteral}

-- What holds of the five escapes holds of every escape.
module _ {ℓ} (P : ℕ → String → Type ℓ) where
  at_escape : (c k : ℕ) (s t : String) → P k s → eqb c k ≡ true → some s ≡ some t → P c t
  at_escape c k s t h e p =
      let same : k ≡ c = ground arith in subst (λ x. P x t) same (subst (P k) (some_inj p) h)

  escape_char-elim :
      P 42 "%2A"
      → P 63 "%3F"
      → P 91 "%5B"
      → P 93 "%5D"
      → P 92 "%5C"
      → (c : ℕ) (t : String) → escape_char c ≡ some t
      → P c t
  unfolding escape_char
  escape_char-elim h1 h2 h3 h4 h5 c t p = elim (Bool-cases (eqb c 42)) [
    | inl e ↦ at_escape c 42 "%2A" t h1 e (rw e at p)
    | inr e1 ↦ elim (Bool-cases (eqb c 63)) [
      | inl e ↦ at_escape c 63 "%3F" t h2 e (rw (e1, e) at p)
      | inr e2 ↦ elim (Bool-cases (eqb c 91)) [
        | inl e ↦ at_escape c 91 "%5B" t h3 e (rw (e1, e2, e) at p)
        | inr e3 ↦ elim (Bool-cases (eqb c 93)) [
          | inl e ↦ at_escape c 93 "%5D" t h4 e (rw (e1, e2, e3, e) at p)
          | inr e4 ↦ elim (Bool-cases (eqb c 92)) [
            | inl e ↦ at_escape c 92 "%5C" t h5 e (rw (e1, e2, e3, e4, e) at p)
            | inr e5 ↦ absurd (none_not_some (rw (e1, e2, e3, e4, e5) at p))
          ]
        ]
      ]
    ]
  ]

pub IsLiteral-append : (s t : String) → IsLiteral s → IsLiteral t → IsLiteral (s <> t)
IsLiteral-append [] t h k = rw nil-append k
IsLiteral-append (c ∷ s) t h k = rw cons-append (h.0, IsLiteral-append s t h.1 k)

escape_char-IsLiteral : (c : ℕ) (t : String) → escape_char c ≡ some t → IsLiteral t
unfolding escape_char
escape_char-IsLiteral =
    escape_char-elim (λ c t. IsLiteral t) (refl, (refl, (refl, tt))) (refl, (refl, (refl, tt)))
      (refl, (refl, (refl, tt))) (refl, (refl, (refl, tt))) (refl, (refl, (refl, tt)))

-- What a part of a key begins with.
escape_key_part_escaped :
    (c : Char) (s t : String)
    → escape_char (code c) ≡ some t
    → escape_key_part (c ∷ s) ≡ t <> escape_key_part s
unfolding escape_key_part
escape_key_part_escaped c s t e = rw (e, escape_key_part) refl

escape_key_part_kept :
    (c : Char) (s : String)
    → escape_char (code c) ≡ none
    → escape_key_part (c ∷ s) ≡ c ∷ escape_key_part s
unfolding escape_key_part
escape_key_part_kept c s e = rw (e, escape_key_part) refl

-- An escaped part of a key holds no character of a pattern.
pub escape_key_part-IsLiteral : (s : String) → IsLiteral (escape_key_part s)
unfolding escape_key_part
escape_key_part-IsLiteral [] = tt
escape_key_part-IsLiteral (c ∷ s) = elim (Option-cases (escape_char (code c))) [
  | inl e ↦ subst IsLiteral (sym (escape_key_part_kept c s e)) (e, escape_key_part-IsLiteral s)
  | inr (t, e) ↦
      subst IsLiteral (sym (escape_key_part_escaped c s t e))
        (IsLiteral-append t _ (escape_char-IsLiteral (code c) t e) (escape_key_part-IsLiteral s))
]

escape_char-HasNo_colon : (c : ℕ) (t : String) → escape_char c ≡ some t → HasNo b':' t
escape_char-HasNo_colon =
    escape_char-elim (λ c t. HasNo b':' t) (ground arith) (ground arith) (ground arith)
      (ground arith) (ground arith)

-- Escaping adds no colon.
pub escape_key_part-HasNo_colon : (s : String) → HasNo b':' s → HasNo b':' (escape_key_part s)
unfolding escape_key_part
escape_key_part-HasNo_colon [] h = tt
escape_key_part-HasNo_colon (c ∷ s) (h, hs) = elim (Option-cases (escape_char (code c))) [
  | inl e ↦
      subst (HasNo b':') (sym (escape_key_part_kept c s e)) (h, escape_key_part-HasNo_colon s hs)
  | inr (t, e) ↦ subst (HasNo b':') (sym (escape_key_part_escaped c s t e)) (
      HasNo-append b':' t _ (escape_char-HasNo_colon (code c) t e)
        (escape_key_part-HasNo_colon s hs))
]

-- An escape is a percent sign and the two hexadecimal digits of the character.
abbrev hex : ℕ → ℕ
hex c = if leb 65 c then c - 55 else c - 48

abbrev percent : Char
percent = "%"

abbrev IsEscape : ℕ → String → Type 0
IsEscape c t =
    (a : Char) × (b : Char) × (t ≡ percent ∷ a ∷ b ∷ []) × (c ≡ hex (code a) * 16 + hex (code b))

escape_char-IsEscape : (c : ℕ) (t : String) → escape_char c ≡ some t → IsEscape c t
escape_char-IsEscape =
    escape_char-elim IsEscape ("2", "A", refl, refl) ("3", "F", refl, refl) ("5", "B", refl, refl)
      ("5", "D", refl, refl) ("5", "C", refl, refl)

-- What an escaped part begins with: the character itself, or its escape.
escape_key_part-cons :
    (c : Char) (s : String)
    → (escape_key_part (c ∷ s) ≡ c ∷ escape_key_part s)
      ⊎ ((a : Char) × (b : Char) × (escape_key_part (c ∷ s) ≡ percent ∷ a ∷ b ∷ escape_key_part s)
          × (code c ≡ hex (code a) * 16 + hex (code b)))
escape_key_part-cons c s = elim (Option-cases (escape_char (code c))) [
  | inl e ↦ inl (escape_key_part_kept c s e)
  | inr (t, e) ↦
      let (a, b, p, q) = escape_char-IsEscape (code c) t e in
      let rest = escape_key_part s in
      inr (
        a,
        b,
        escape_key_part_escaped c s t e
            ∙ ap (λ x. x <> escape_key_part s) p
            ∙ rw (cons-append, cons-append, cons-append, nil-append) refl,
        q,
      )
]

escape_key_part_not_nil : (c : Char) (s : String) → escape_key_part (c ∷ s) ≢ ""
escape_key_part_not_nil c s p = elim (escape_key_part-cons c s) [
  | inl e ↦ cons-ne-nil c _ (sym e ∙ p)
  | inr (a, b, e, _) ↦ cons-ne-nil percent _ (sym e ∙ p)
]

-- Texts without a percent sign are told apart by what they are escaped to.
pub escape_key_part_inj :
    (s t : String) → HasNo b'%' s → HasNo b'%' t → escape_key_part s ≡ escape_key_part t → s ≡ t
unfolding escape_key_part
escape_key_part_inj [] [] h k p = refl
escape_key_part_inj [] (d ∷ t) h k p = absurd (escape_key_part_not_nil d t (sym p))
escape_key_part_inj (c ∷ s) [] h k p = absurd (escape_key_part_not_nil c s p)
escape_key_part_inj (c ∷ s) (d ∷ t) (h, hs) (k, ks) p = elim (escape_key_part-cons c s) [
  | inl e ↦ elim (escape_key_part-cons d t) [
    | inl f ↦
        let q : c ∷ escape_key_part s ≡ d ∷ escape_key_part t = sym e ∙ p ∙ f in
        let same = escape_key_part_inj s t hs ks (tail-eq_of_cons-eq q) in
        λ i. head-eq_of_cons-eq q i ∷ same i
    | inr (a, b, f, _) ↦ absurd (h (ap code (head-eq_of_cons-eq (sym e ∙ p ∙ f))))
  ]
  | inr (a, b, e, v) ↦ elim (escape_key_part-cons d t) [
    | inl f ↦ absurd (k (sym (ap code (head-eq_of_cons-eq (sym e ∙ p ∙ f)))))
    | inr (x, y, f, w) ↦
        let q : a ∷ b ∷ escape_key_part s ≡ x ∷ y ∷ escape_key_part t =
          tail-eq_of_cons-eq (sym e ∙ p ∙ f) in
        let r : b ∷ escape_key_part s ≡ y ∷ escape_key_part t = tail-eq_of_cons-eq q in
        let first : code a ≡ code x = ap code (head-eq_of_cons-eq q) in
        let second : code b ≡ code y = ap code (head-eq_of_cons-eq r) in
        let same = escape_key_part_inj s t hs ks (tail-eq_of_cons-eq r) in
        let coded : code c ≡ code d =
          v
          ∙ ap (λ n. hex n * 16 + hex (code b)) first
          ∙ ap (λ n. hex (code x) * 16 + hex n) second
          ∙ sym w in
        λ i. Char-path c d coded i ∷ same i
  ]
]

pub escape_key_part-append :
    (s t : String) → escape_key_part (s <> t) ≡ escape_key_part s <> escape_key_part t
unfolding escape_key_part
escape_key_part-append [] t = rw nil-append (sym (nil-append (escape_key_part t)))
escape_key_part-append (c ∷ s) t = elim (Option-cases (escape_char (code c))) [
  | inl e ↦
      rw (cons-append, escape_key_part_kept c (s <> t) e, escape_key_part_kept c s e, cons-append)
        (ap (λ x. c ∷ x) (escape_key_part-append s t))
  | inr (u, e) ↦
      rw
        (
          cons-append,
          escape_key_part_escaped c (s <> t) u e,
          escape_key_part_escaped c s u e,
          append_assoc,
        )
        (ap (λ x. u <> x) (escape_key_part-append s t))
]
