-- ===== src/Cdevents/ArtifactVersion.antt =====
-- fields.go: `versionFromArtifactID`, with the regular expression `trailingVersionPattern`.
use Prim.Native.Char.{code}
use Prim.Native.String.{String, [], ◌∷◌}
use cdevents_otel_bridge.Prelude.{
  ℕ, Bool, true, false, ◌&&◌, ◌||◌, Option, none, some, is_empty, eqb, leb, if◌then◌else◌,
}
use cdevents_otel_bridge.Text.{is_digit, trim_space, after_last, has_prefix}

abbrev pub is_alphanumeric : ℕ → Bool
is_alphanumeric c = is_digit c || (leb b'A' c && leb c b'Z') || (leb b'a' c && leb c b'z')

-- `[0-9A-Za-z.-]*$`
unfoldable pub is_suffix_text : String → Bool
is_suffix_text [] = true
is_suffix_text (c ∷ s) =
    (is_alphanumeric (code c) || eqb (code c) b'.' || eqb (code c) b'-') && is_suffix_text s

-- `(?:[-+][0-9A-Za-z.-]+)?$`
unfoldable pub is_tail : String → Bool
unfolding is_suffix_text
is_tail [] = true
is_tail (c ∷ s) =
    (eqb (code c) b'-' || eqb (code c) b'+') && (if is_empty s then false else is_suffix_text s)

-- `\d*`, then what follows; a digit never begins what follows, so taking all digits is no loss
unfoldable pub after_digits : (String → Bool) → String → Bool
after_digits rest [] = rest []
after_digits rest (c ∷ s) =
    let more = after_digits rest s in if is_digit (code c) then more else rest (c ∷ s)

-- `\d+`, then what follows
unfoldable pub digits_then : (String → Bool) → String → Bool
unfolding after_digits
digits_then rest [] = false
digits_then rest (c ∷ s) = is_digit (code c) && after_digits rest s

-- `\.`, then what follows
unfoldable pub dot_then : (String → Bool) → String → Bool
dot_then rest [] = false
dot_then rest (c ∷ s) = eqb (code c) b'.' && rest s

-- `(?:\.\d+)?(?:[-+][0-9A-Za-z.-]+)?$`
unfoldable pub is_patch_tail : String → Bool
unfolding is_tail dot_then digits_then
is_patch_tail s = is_tail s || dot_then (digits_then is_tail) s

-- `\d+\.\d+(?:\.\d+)?(?:[-+][0-9A-Za-z.-]+)?$`
unfoldable pub is_numeric_version : String → Bool
unfolding is_patch_tail
is_numeric_version s = digits_then (dot_then (digits_then is_patch_tail)) s

-- `v?\d+\.\d+(?:\.\d+)?(?:[-+][0-9A-Za-z.-]+)?$`
unfoldable pub is_version : String → Bool
unfolding is_numeric_version
is_version [] = false
is_version (c ∷ s) = if eqb (code c) b'v' then is_numeric_version s else is_numeric_version (c ∷ s)

-- the search for `[-_]` before a version, leftmost first
unfoldable pub version_after_separator : String → String
version_after_separator [] = []
version_after_separator (c ∷ s) =
    let later = version_after_separator s in
    if (eqb (code c) b'-' || eqb (code c) b'_') && is_version s then s else later

-- `trailingVersionPattern.FindStringSubmatch`: the group, or "" where nothing matches
unfoldable pub trailing_version : String → String
unfolding version_after_separator is_version
trailing_version s = if is_version s then s else version_after_separator s

abbrev pub non_empty : Option String → Bool
non_empty none = false
non_empty (some s) = if is_empty s then false else true

abbrev pub text_of : Option String → String
text_of none = ""
text_of (some s) = s

unfoldable pub version_from_artifact_id : String → String
unfolding trim_space after_last has_prefix trailing_version
version_from_artifact_id artifact_id =
    let id = trim_space artifact_id in
    if is_empty id
    then ""
    else if non_empty (after_last b'@' id)
    then text_of (after_last b'@' id)
    else if has_prefix id "pkg:"
    then ""
    else if non_empty (after_last b':' id)
    then text_of (after_last b':' id)
    else trailing_version id
