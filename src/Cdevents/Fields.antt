-- ===== src/Cdevents/Fields.antt =====
-- fields.go: looking texts up in the loosely typed maps of an event.
pub mod Laws
use cdevents_otel_bridge.Prelude.{
  String, List, [], ◌∷◌, Option, none, some, is_empty, if◌then◌else◌,
}
use cdevents_otel_bridge.Models.Json.{Json, str, obj, Fields, Map, get}

-- str, ok := val.(string), or ""
unfoldable pub as_string : Json → String
as_string (str s) = s
as_string _ = ""

abbrev pub string_at : Option Json → String
string_at none = ""
string_at (some val) = as_string val

unfoldable pub get_string_field : Map → String → String
unfolding as_string get
get_string_field none key = ""
get_string_field (some m) key = string_at (get m key)

-- the loop of `getNestedString`, at a map that is not nil
unfoldable pub walk_nested : Fields → List String → String
walk_nested current [] = ""
walk_nested current (key ∷ []) = string_at (get current key)
walk_nested current (key ∷ next ∷ keys) = elim (get current key) [
  | some (obj next_map) ↦ walk_nested next_map (next ∷ keys)
  | _ ↦ ""
]

unfoldable pub get_nested_string : Map → List String → String
unfolding walk_nested as_string get
get_nested_string none keys = ""
get_nested_string (some m) keys = walk_nested m keys

-- the inner loop of `stringFrom`: the first key with a text, or ""
unfoldable pub string_from_keys : Map → List String → String
unfolding get_string_field
string_from_keys m [] = ""
string_from_keys m (key ∷ keys) =
    let v = get_string_field m key in if is_empty v then string_from_keys m keys else v

unfoldable pub string_from : List String → List Map → String
unfolding string_from_keys
string_from keys [] = ""
string_from keys (m ∷ maps) =
    let v = string_from_keys m keys in if is_empty v then string_from keys maps else v

-- the `switch` of `identityFrom`: the text that a value gives, or ""
unfoldable pub identity_of : Json → String
unfolding string_from
identity_of (str v) = v
identity_of (obj v) = string_from ("id" ∷ "url" ∷ "name" ∷ []) (some v ∷ [])
identity_of _ = ""

abbrev pub identity_at : Option Json → String
identity_at none = ""
identity_at (some val) = identity_of val

-- the inner loop of `identityFrom`
unfoldable pub identity_from_keys : Fields → List String → String
unfolding identity_of get
identity_from_keys m [] = ""
identity_from_keys m (key ∷ keys) =
    let s = identity_at (get m key) in if is_empty s then identity_from_keys m keys else s

unfoldable pub identity_from : List String → List Map → String
unfolding identity_from_keys
identity_from keys [] = ""
identity_from keys (none ∷ maps) = identity_from keys maps
identity_from keys (some m ∷ maps) =
    let s = identity_from_keys m keys in if is_empty s then identity_from keys maps else s

unfoldable pub first_non_empty : List String → String
first_non_empty [] = ""
first_non_empty (v ∷ values) = if is_empty v then first_non_empty values else v
