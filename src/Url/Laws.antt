-- ===== src/Url/Laws.antt =====
-- net/url: an escaped text stands where it was put.
use Prim.Native.Char.{Char, code}
use Prim.Native.String.{[], ◌∷◌}
use mathlib.Core.List.{[], ◌∷◌}
use cdevents_otel_bridge.Prelude.{
  ℕ, zero, suc, String, List, true, false, ◌||◌, ◌≡◌, ◌≢◌, ◌/◌, ◌%◌, true_not_false, refl, sym, ap,
  ◌∙◌, Bool-cases, inl, inr, eqb,
}
use cdevents_otel_bridge.Text.Separators.{HasNo, HasNo-append}
use cdevents_otel_bridge.Url.{
  utf8, char_at, upper_hex, escape_bytes, is_unreserved, is_segment_character, path_escape,
  query_escape,
}

HasNo-char_at : (k n : ℕ) (s : String) → HasNo k s → HasNo k (char_at n s)
unfolding char_at
HasNo-char_at k n [] h = tt
HasNo-char_at k zero (c ∷ s) (h, hs) = (h, tt)
HasNo-char_at k (suc n) (c ∷ s) (h, hs) = HasNo-char_at k n s hs

module _ (k : ℕ) (foreign : HasNo k "%+0123456789ABCDEF") where
  HasNo-escape_bytes : (bs : List ℕ) → HasNo k (escape_bytes bs)
  unfolding escape_bytes
  HasNo-escape_bytes [] = tt
  HasNo-escape_bytes (b ∷ bs) =
      HasNo-append k "%" _ (foreign.0, tt)
        (HasNo-append k (char_at (b / 16) upper_hex) _
          (HasNo-char_at k (b / 16) upper_hex foreign.1.1)
          (HasNo-append k (char_at (b % 16) upper_hex) _
            (HasNo-char_at k (b % 16) upper_hex foreign.1.1) (HasNo-escape_bytes bs)))

  -- A character that no escape is made of stands in an escaped path segment or query only if it is
  -- kept there as it is.
  pub HasNo-path_escape :
      ((is_unreserved k || is_segment_character k) ≡ false) → (s : String) → HasNo k (path_escape s)
  unfolding path_escape
  HasNo-path_escape h [] = tt
  HasNo-path_escape h (c ∷ s) =
      elim (Bool-cases (is_unreserved (code c) || is_segment_character (code c))) [
        | inl e ↦ rw (path_escape, e) (differs c e, HasNo-path_escape h s)
        | inr e ↦
            rw (path_escape, e)
              (HasNo-append k (escape_bytes (utf8 (code c))) _ (HasNo-escape_bytes (utf8 (code c)))
                (HasNo-path_escape h s))
      ]
    where
      differs :
          (c : Char) → (is_unreserved (code c) || is_segment_character (code c)) ≡ true → code c ≢ k
      differs c e same =
          true_not_false (sym e ∙ ap (λ x. is_unreserved x || is_segment_character x) same ∙ h)

  pub HasNo-query_escape : is_unreserved k ≡ false → (s : String) → HasNo k (query_escape s)
  unfolding query_escape
  HasNo-query_escape h [] = tt
  HasNo-query_escape h (c ∷ s) = elim (Bool-cases (is_unreserved (code c))) [
    | inl e ↦
        rw (query_escape, e)
          (λ same. true_not_false (sym e ∙ ap is_unreserved same ∙ h), HasNo-query_escape h s)
    | inr e ↦ elim (Bool-cases (eqb (code c) b' ')) [
      | inl f ↦
          rw (query_escape, e, f) (HasNo-append k "+" _ (foreign.1.0, tt) (HasNo-query_escape h s))
      | inr f ↦
          rw (query_escape, e, f)
            (HasNo-append k (escape_bytes (utf8 (code c))) _ (HasNo-escape_bytes (utf8 (code c)))
              (HasNo-query_escape h s))
    ]
  ]

-- A text of letters, digits, hyphens, dots, underscores and tildes.
abbrev pub IsUnreserved : String → Type 0
IsUnreserved [] = Unit
IsUnreserved (c ∷ s) = (is_unreserved (code c) ≡ true) × IsUnreserved s

-- Such a text is not escaped.
pub path_escape_unreserved : (s : String) → IsUnreserved s → path_escape s ≡ s
unfolding path_escape
path_escape_unreserved [] h = refl
path_escape_unreserved (c ∷ s) (h, hs) =
    rw (path_escape, h) (ap (λ t. c ∷ t) (path_escape_unreserved s hs))

pub query_escape_unreserved : (s : String) → IsUnreserved s → query_escape s ≡ s
unfolding query_escape
query_escape_unreserved [] h = refl
query_escape_unreserved (c ∷ s) (h, hs) =
    rw (query_escape, h) (ap (λ t. c ∷ t) (query_escape_unreserved s hs))
