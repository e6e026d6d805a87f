-- ===== src/Text.antt =====
-- What the program uses of Go's package `strings`, over the code points of a text.
pub mod Separators
use Prim.Native.Char.{Char, code}
use Prim.Native.String.{String, [], ◌∷◌}
use mathlib.Core.List.{List, [], ◌∷◌}
use cdevents_otel_bridge.Prelude.{
  ℕ, Bool, true, false, ◌==◌, ◌&&◌, ◌||◌, Option, none, some, ◌<>◌, is_empty, leb, eqb,
  if◌then◌else◌,
}

-- unicode.IsSpace
unfoldable pub is_space : ℕ → Bool
is_space c =
    (leb 9 c && leb c 13)
    || eqb c 32
    || eqb c 0x85
    || eqb c 0xa0
    || eqb c 0x1680
    || (leb 0x2000 c && leb c 0x200a)
    || eqb c 0x2028
    || eqb c 0x2029
    || eqb c 0x202f
    || eqb c 0x205f
    || eqb c 0x3000

abbrev pub is_digit : ℕ → Bool
is_digit c = leb b'0' c && leb c b'9'

unfoldable pub trim_left : String → String
trim_left [] = []
trim_left (c ∷ s) = let rest = trim_left s in if is_space (code c) then rest else c ∷ s

unfoldable pub trim_right : String → String
trim_right [] = []
trim_right (c ∷ s) =
    let rest = trim_right s in if is_empty rest && is_space (code c) then [] else c ∷ rest

-- strings.TrimSpace
unfoldable pub trim_space : String → String
unfolding trim_left trim_right is_space
trim_space s = trim_right (trim_left s)

-- Puts a character in front of the first part.
abbrev pub extend : Char → List String → List String
extend c [] = (c ∷ []) ∷ []
extend c (part ∷ parts) = (c ∷ part) ∷ parts

-- strings.Split, at a separator of one character: the parts, always at least one
unfoldable pub split : ℕ → String → List String
split sep [] = [] ∷ []
split sep (c ∷ s) = let rest = split sep s in if eqb (code c) sep then [] ∷ rest else extend c rest

-- `before, after, _ := strings.Cut(s, sep)`, at a separator of one character
unfoldable pub cut : ℕ → String → String × String
cut sep [] = ([], [])
cut sep (c ∷ s) =
    let (before, after) = cut sep s in if eqb (code c) sep then ([], s) else (c ∷ before, after)

-- `s[i+1:]` for `i := strings.LastIndex(s, sep)`, or none where `i < 0`
unfoldable pub after_last : ℕ → String → Option String
after_last sep [] = none
after_last sep (c ∷ s) = elim (after_last sep s) [
  | some rest ↦ some rest
  | none ↦ if eqb (code c) sep then some s else none
]

-- strings.HasPrefix
unfoldable pub has_prefix : String → String → Bool
has_prefix s [] = true
has_prefix [] (d ∷ p) = false
has_prefix (c ∷ s) (d ∷ p) =
    let rest = has_prefix s p in if eqb (code c) (code d) then rest else false

-- strings.Join
unfoldable pub join : List String → String → String
join [] sep = []
join (part ∷ []) sep = part
join (part ∷ next ∷ parts) sep = part <> sep <> join (next ∷ parts) sep

-- A case of a `switch` over texts.
unfoldable pub one_of : List String → String → Bool
one_of [] s = false
one_of (t ∷ ts) s = let rest = one_of ts s in if s == t then true else rest
