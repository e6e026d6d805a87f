-- ===== src/Url.antt =====
-- What the program uses of Go's package `net/url`: `PathEscape` and `QueryEscape`, over the UTF-8
-- bytes of a text.
pub mod Laws
pub mod Decoding
use Prim.Native.Char.{Char, code}
use Prim.Native.String.{[], ◌∷◌}
use mathlib.Core.List.{[], ◌∷◌}
use cdevents_otel_bridge.Prelude.{
  ℕ, zero, suc, ◌+◌, ◌-◌, ◌*◌, ◌/◌, ◌%◌, String, List, Bool, true, false, ◌&&◌, ◌||◌, ◌<>◌, ltb,
  leb, eqb, if◌then◌else◌,
}
use cdevents_otel_bridge.Text.{is_digit}

-- The UTF-8 bytes of a code point.
unfoldable pub utf8 : ℕ → List ℕ
utf8 c =
    if ltb c 0x80
    then c ∷ []
    else if ltb c 0x800
    then (0xc0 + c / 0x40) ∷ (0x80 + c % 0x40) ∷ []
    else if ltb c 0x10000
    then (0xe0 + c / 0x1000) ∷ (0x80 + c / 0x40 % 0x40) ∷ (0x80 + c % 0x40) ∷ []
    else (0xf0 + c / 0x40000)
      ∷ (0x80 + c / 0x1000 % 0x40)
      ∷ (0x80 + c / 0x40 % 0x40)
      ∷ (0x80 + c % 0x40)
      ∷ []

-- The character of a text at a position, as a text.
unfoldable pub char_at : ℕ → String → String
char_at n [] = ""
char_at zero (c ∷ s) = c ∷ []
char_at (suc n) (c ∷ s) = char_at n s

abbrev pub upper_hex : String
upper_hex = "0123456789ABCDEF"

unfoldable pub escape_bytes : List ℕ → String
unfolding char_at
escape_bytes [] = ""
escape_bytes (b ∷ bs) =
    "%" <> char_at (b / 16) upper_hex <> char_at (b % 16) upper_hex <> escape_bytes bs

-- The characters that no escape touches.
unfoldable pub is_unreserved : ℕ → Bool
is_unreserved c =
    is_digit c
    || (leb b'A' c && leb c b'Z')
    || (leb b'a' c && leb c b'z')
    || eqb c b'-'
    || eqb c b'_'
    || eqb c b'.'
    || eqb c b'~'

-- The reserved characters that may stand in a path segment.
unfoldable pub is_segment_character : ℕ → Bool
is_segment_character c =
    eqb c b'$' || eqb c b'&' || eqb c b'+' || eqb c b':' || eqb c b'=' || eqb c b'@'

-- url.PathEscape
unfoldable pub path_escape : String → String
unfolding utf8 escape_bytes
path_escape [] = ""
path_escape (c ∷ s) =
    let rest = path_escape s in
    if is_unreserved (code c) || is_segment_character (code c)
    then c ∷ rest
    else escape_bytes (utf8 (code c)) <> rest

-- url.QueryEscape
unfoldable pub query_escape : String → String
unfolding utf8 escape_bytes
query_escape [] = ""
query_escape (c ∷ s) =
    let rest = query_escape s in
    if is_unreserved (code c)
    then c ∷ rest
    else if eqb (code c) b' '
    then "+" <> rest
    else escape_bytes (utf8 (code c)) <> rest
