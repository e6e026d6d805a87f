-- ===== src/Prelude/Strings.antt =====
-- Texts: a Go string holds the code points of a valid UTF-8 text, as `encoding/json` makes them.
use Prim.Native.Char.{code}
use Prim.Native.String.{String, [], ◌∷◌}
use Prim.Native.String
use mathlib.Core.Path.{◌≡◌, refl}
use mathlib.Core.Bool.{Bool, true, false}
use native.Mathlib.Omega.{arith}
use text.Mathlib.Text.{◌==◌}
use text.Mathlib.TextEquality.{Char-path}
use cdevents_otel_bridge.Prelude.Tests.{ltb, eqb, if◌then◌else◌}

-- `s + t`
infixr 65 ◌<>◌
abbrev pub ◌<>◌ : String → String → String
s <> t = String.◌++◌ s t

-- `s == ""`
abbrev pub is_empty : String → Bool
is_empty s = s == ""

-- `s < t`: Go compares bytes, which orders UTF-8 texts as their code points do.
unfoldable pub str_ltb : String → String → Bool
str_ltb [] [] = false
str_ltb [] (d ∷ t) = true
str_ltb (c ∷ s) [] = false
str_ltb (c ∷ s) (d ∷ t) =
    let rest = str_ltb s t in
    if ltb (code c) (code d) then true else if eqb (code c) (code d) then rest else false

pub str_ltb_asymm : (s t : String) → str_ltb s t ≡ true → str_ltb t s ≡ false
unfolding str_ltb
str_ltb_asymm [] [] h = refl
str_ltb_asymm [] (d ∷ t) h = refl
str_ltb_asymm (c ∷ s) [] h = absurd (ground arith)
str_ltb_asymm (c ∷ s) (d ∷ t) h = ground (arith, str_ltb_asymm s t)

pub str_ltb_trans : (s t u : String) → str_ltb s t ≡ true → str_ltb t u ≡ true → str_ltb s u ≡ true
unfolding str_ltb
str_ltb_trans [] [] u h k = k
str_ltb_trans [] (d ∷ t) [] h k = k
str_ltb_trans [] (d ∷ t) (e ∷ u) h k = refl
str_ltb_trans (c ∷ s) [] u h k = absurd (ground arith)
str_ltb_trans (c ∷ s) (d ∷ t) [] h k = k
str_ltb_trans (c ∷ s) (d ∷ t) (e ∷ u) h k = ground (arith, str_ltb_trans s t u)

pub str_ltb_neg_trans :
    (s t u : String) → str_ltb s t ≡ false → str_ltb t u ≡ false → str_ltb s u ≡ false
unfolding str_ltb
str_ltb_neg_trans s t [] h k = str_ltb_nil s
  where
    str_ltb_nil : (r : String) → str_ltb r [] ≡ false
    str_ltb_nil [] = refl
    str_ltb_nil (c ∷ r) = refl
str_ltb_neg_trans s [] (e ∷ u) h k = absurd (ground arith)
str_ltb_neg_trans [] (d ∷ t) (e ∷ u) h k = absurd (ground arith)
str_ltb_neg_trans (c ∷ s) (d ∷ t) (e ∷ u) h k = ground (arith, str_ltb_neg_trans s t u)

-- Texts of which neither is below the other are equal.
pub str_ltb_connected : (s t : String) → str_ltb s t ≡ false → str_ltb t s ≡ false → s ≡ t
unfolding str_ltb
str_ltb_connected [] [] h k = refl
str_ltb_connected [] (d ∷ t) h k = absurd (ground arith)
str_ltb_connected (c ∷ s) [] h k = absurd (ground arith)
str_ltb_connected (c ∷ s) (d ∷ t) h k =
    let same : code c ≡ code d = ground arith in
    λ i. Char-path c d same i ∷ str_ltb_connected s t (ground arith) (ground arith) i
