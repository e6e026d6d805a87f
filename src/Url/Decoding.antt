-- ===== src/Url/Decoding.antt =====
-- net/url: what an escaped text says, as its bytes.
use Prim.Native.Char.{Char, code, char, IsScalar}
use Prim.Native.Nat.{Ordering, compare}
use Prim.Native.String.{[], ◌∷◌}
use mathlib.Core.List.{[], ◌∷◌}
use native.Mathlib.Omega.{compare-lt}
use text.Mathlib.TextLemmas.{append_assoc, nil-append, cons-append}
use cdevents_otel_bridge.Prelude.{
  ℕ, zero, suc, ◌⊎◌, ◌+◌, ◌-◌, ◌*◌, ◌/◌, ◌%◌, ◌<◌, String, List, ◌++◌, All, Bool, true, false, ◌&&◌,
  ◌||◌, ◌≡◌, ◌≢◌, refl, sym, ap, ◌∙◌, ◌<>◌, ltb, eqb, if◌then◌else◌, arith, Bool-cases, inl, inr,
  true_not_false,
}
use cdevents_otel_bridge.Text.{is_digit}
use cdevents_otel_bridge.Url.{
  utf8, char_at, upper_hex, escape_bytes, is_unreserved, is_segment_character, path_escape,
  query_escape,
}

-- The UTF-8 bytes of a text.
abbrev pub bytes_of : String → List ℕ
bytes_of [] = []
bytes_of (c ∷ s) = utf8 (code c) ++ bytes_of s

abbrev pub hex_value : ℕ → ℕ
hex_value c = if is_digit c then c - b'0' else c - b'A' + 10

-- Where a reader stands: outside an escape, behind a percent sign, or behind its first digit.
pub data State : Type 0 where
  outside percent : State
  digit : ℕ → State

-- The byte of a character that stands for itself. In a query a plus stands for a space.
abbrev pub literal : Bool → ℕ → List ℕ
literal in_query c = if in_query && eqb c b'+' then b' ' ∷ [] else utf8 c

-- The bytes that an escaped text says.
abbrev pub decoded_from : Bool → State → String → List ℕ
decoded_from in_query state [] = []
decoded_from in_query outside (c ∷ s) =
    let escaped = decoded_from in_query percent s in
    let rest = decoded_from in_query outside s in
    if eqb (code c) b'%' then escaped else literal in_query (code c) ++ rest
decoded_from in_query percent (c ∷ s) = decoded_from in_query (digit (hex_value (code c))) s
decoded_from in_query (digit h) (c ∷ s) =
    (h * 16 + hex_value (code c)) ∷ decoded_from in_query outside s

abbrev pub path_bytes : String → List ℕ
path_bytes = decoded_from false outside

abbrev pub query_bytes : String → List ℕ
query_bytes = decoded_from true outside

order-cases : (o : Ordering) → (o ≡ Ordering.lt) ⊎ (o ≡ Ordering.eq) ⊎ (o ≡ Ordering.gt)
order-cases Ordering.lt = inl refl
order-cases Ordering.eq = inr (inl refl)
order-cases Ordering.gt = inr (inr refl)

scalar_bound : (n : ℕ) → IsScalar n → n < 1114112
scalar_bound n h = elim (order-cases (compare n 1114112)) [
  | inl e ↦ compare-lt n 1114112 e
  | inr other ↦ elim (order-cases (compare n 55296)) [
    | inl f ↦ omega (arith, compare-lt n 55296 f)
    | inr least ↦ elim (order-cases (compare 57343 n)) [
      | inl g ↦ elim least [
        | inl f ↦ elim other [
          | inl e ↦ absurd (rw (f, g, e) at h)
          | inr e ↦ absurd (rw (f, g, e) at h)
        ]
        | inr f ↦ elim other [
          | inl e ↦ absurd (rw (f, g, e) at h)
          | inr e ↦ absurd (rw (f, g, e) at h)
        ]
      ]
      | inr middle ↦ elim least [
        | inl f ↦ elim middle [ inl g ↦ absurd (rw (f, g) at h) | inr g ↦ absurd (rw (f, g) at h) ]
        | inr f ↦ elim middle [ inl g ↦ absurd (rw (f, g) at h) | inr g ↦ absurd (rw (f, g) at h) ]
      ]
    ]
  ]
]

code_bound : (c : Char) → code c < 1114112
code_bound (char n h) = scalar_bound n h

utf8-bytes : (n : ℕ) → n < 1114112 → All (λ b. b < 256) (utf8 n)
unfolding utf8
utf8-bytes n h = elim (Bool-cases (ltb n 0x80)) [
  | inl e ↦ rw e (ground arith, tt)
  | inr e ↦ elim (Bool-cases (ltb n 0x800)) [
    | inl f ↦ rw (e, f) (ground arith, (ground arith, tt))
    | inr f ↦ elim (Bool-cases (ltb n 0x10000)) [
      | inl g ↦ rw (e, f, g) (ground arith, (ground arith, (ground arith, tt)))
      | inr g ↦ rw (e, f, g) (ground arith, (ground arith, (ground arith, (ground arith, tt))))
    ]
  ]
]

-- The characters of a text have the values that count up from a number.
abbrev Counts : ℕ → String → Type 0
Counts k [] = Unit
Counts k (c ∷ s) = (hex_value (code c) ≡ k) × Counts (k + 1) s

abbrev size : String → ℕ
size [] = 0
size (c ∷ s) = suc (size s)

counted :
    (i k : ℕ) (s : String)
    → Counts k s
    → i < size s
    → (c : Char) × (char_at i s ≡ c ∷ []) × (hex_value (code c) ≡ k + i)
unfolding char_at
counted i k [] h l = absurd (omega (arith, l))
counted zero k (c ∷ s) (h, hs) l = (c, refl, h ∙ omega arith)
counted (suc i) k (c ∷ s) (h, hs) l =
    let (d, p, q) = counted i (k + 1) s hs (omega (arith, l)) in (d, p, q ∙ omega arith)

hex_digit :
    (k : ℕ) → k < 16 → (c : Char) × (char_at k upper_hex ≡ c ∷ []) × (hex_value (code c) ≡ k)
hex_digit k h =
    let (c, p, q) =
      counted k 0 upper_hex
        (
          refl,
          (
            refl,
            (
              refl,
              (
                refl,
                (
                  refl,
                  (
                    refl,
                    (
                      refl,
                      (refl, (refl, (refl, (refl, (refl, (refl, (refl, (refl, (refl, tt))))))))),
                    ),
                  ),
                ),
              ),
            ),
          ),
        )
        h in
    (c, p, q ∙ omega arith)

literal_plain :
    (in_query : Bool) (n : ℕ) → (in_query ≡ true → n ≢ b'+') → literal in_query n ≡ utf8 n
literal_plain true n h = let plus : eqb n b'+' ≡ false = ground (arith, h refl) in rw plus refl
literal_plain false n h = refl

module _ (in_query : Bool) where
  escaped_byte :
      (b : ℕ) (rest : String)
      → b < 256
      → decoded_from in_query outside
          ("%" <> char_at (b / 16) upper_hex <> char_at (b % 16) upper_hex <> rest)
        ≡ b ∷ decoded_from in_query outside rest
  escaped_byte b rest h =
      let (c, p, x) = hex_digit (b / 16) (omega (arith, h)) in
      let (d, q, y) = hex_digit (b % 16) (omega arith) in
      let whole : hex_value (code c) * 16 + hex_value (code d) ≡ b = omega (arith, x, y) in
      rw (p, q, cons-append, cons-append, cons-append, nil-append, nil-append, nil-append)
        (ap (λ n. n ∷ decoded_from in_query outside rest) whole)

  escaped_bytes :
      (bs : List ℕ) (rest : String)
      → All (λ b. b < 256) bs
      → decoded_from in_query outside (escape_bytes bs <> rest)
        ≡ bs ++ decoded_from in_query outside rest
  unfolding escape_bytes
  escaped_bytes [] rest h = rw nil-append refl
  escaped_bytes (b ∷ bs) rest (h, hs) =
      let more = escape_bytes bs in
      ap (decoded_from in_query outside) (
        append_assoc "%" (char_at (b / 16) upper_hex <> char_at (b % 16) upper_hex <> more) rest
        ∙ ap (λ t. "%" <> t)
            (append_assoc (char_at (b / 16) upper_hex) (char_at (b % 16) upper_hex <> more) rest
              ∙ ap (λ t. char_at (b / 16) upper_hex <> t)
                  (append_assoc (char_at (b % 16) upper_hex) more rest)))
      ∙ escaped_byte b (more <> rest) h
      ∙ ap (λ xs. b ∷ xs) (escaped_bytes bs rest hs)

  -- A character that no escape touches stands for its bytes.
  plain_character :
      (c : Char) (s : String)
      → code c ≢ b'%'
      → (in_query ≡ true → code c ≢ b'+')
      → decoded_from in_query outside (c ∷ s) ≡ utf8 (code c) ++ decoded_from in_query outside s
  plain_character c s h k =
      let percent : eqb (code c) b'%' ≡ false = ground (arith, h) in
      rw (percent, literal_plain in_query (code c) k) refl

differs : (k : ℕ) (kept : ℕ → Bool) (c : Char) → kept k ≡ false → kept (code c) ≡ true → code c ≢ k
differs k kept c h e same = true_not_false (sym e ∙ ap kept same ∙ h)

-- An escaped path segment says the bytes of its text.
pub path_bytes-path_escape : (s : String) → path_bytes (path_escape s) ≡ bytes_of s
unfolding path_escape is_unreserved is_segment_character
path_bytes-path_escape [] = refl
path_bytes-path_escape (c ∷ s) =
    let kept : ℕ → Bool = λ n. is_unreserved n || is_segment_character n in
    let ih = ap (λ xs. utf8 (code c) ++ xs) (path_bytes-path_escape s) in
    elim (Bool-cases (kept (code c))) [
      | inl e ↦
          rw (path_escape, e)
            (plain_character false c (path_escape s) (differs b'%' kept c refl e)
                (λ q. absurd (true_not_false (sym q)))
              ∙ ih)
      | inr e ↦
          rw (path_escape, e)
            (escaped_bytes false (utf8 (code c)) (path_escape s)
                (utf8-bytes (code c) (code_bound c))
              ∙ ih)
    ]

-- An escaped query value says the bytes of its text.
pub query_bytes-query_escape : (s : String) → query_bytes (query_escape s) ≡ bytes_of s
unfolding query_escape is_unreserved utf8
query_bytes-query_escape [] = refl
query_bytes-query_escape (c ∷ s) =
    let ih = ap (λ xs. utf8 (code c) ++ xs) (query_bytes-query_escape s) in
    elim (Bool-cases (is_unreserved (code c))) [
      | inl e ↦
          rw (query_escape, e)
            (plain_character true c (query_escape s) (differs b'%' is_unreserved c refl e)
                (λ _. differs b'+' is_unreserved c refl e)
              ∙ ih)
      | inr e ↦ elim (Bool-cases (eqb (code c) b' ')) [
        | inl f ↦
            let space : code c ≡ b' ' = ground arith in
            rw (query_escape, e, f)
              (rw (cons-append, nil-append)
                (ap (λ xs. xs ++ query_bytes (query_escape s)) (sym (ap utf8 space)) ∙ ih))
        | inr f ↦
            rw (query_escape, e, f)
              (escaped_bytes true (utf8 (code c)) (query_escape s)
                  (utf8-bytes (code c) (code_bound c))
                ∙ ih)
      ]
    ]
