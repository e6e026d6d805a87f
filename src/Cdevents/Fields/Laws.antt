-- ===== src/Cdevents/Fields/Laws.antt =====
-- fields.go: `stringFrom`, `getStringField` and `firstNonEmpty` look for the first text that is not
-- empty.
use mathlib.Core.List.Memᴰ
use cdevents_otel_bridge.Prelude.{
  true_not_false, String, List, [], ◌∷◌, ◌++◌, map, ◌≡◌, refl, sym, ap, ◌∙◌, inl, inr, false,
  is_empty, Memᴰ, if◌then◌else◌, Bool-cases,
}
use cdevents_otel_bridge.Models.Json.{Map}
use cdevents_otel_bridge.Cdevents.Fields.{
  get_string_field, string_from_keys, string_from, first_non_empty,
}

-- A text that is not empty among the candidates makes the choice not empty.
pub first_non_empty-is_empty :
    (v : String) (values : List String)
    → Memᴰ v values
    → is_empty v ≡ false
    → is_empty (first_non_empty values) ≡ false
unfolding first_non_empty
first_non_empty-is_empty v [] q h = absurd (Memᴰ.not-nil q)
first_non_empty-is_empty v (w ∷ values) q h = elim (Bool-cases (is_empty w)) [
  | inr e ↦ rw e e
  | inl e ↦ elim (Memᴰ.cases_cons q) [
    | inl s ↦ absurd (true_not_false (sym e ∙ ap is_empty (sym s) ∙ h))
    | inr r ↦ rw e (first_non_empty-is_empty v values r h)
  ]
]

first_non_empty-append :
    (values others : List String)
    → first_non_empty (values ++ others) ≡ (
        if is_empty (first_non_empty values)
        then first_non_empty others
        else first_non_empty values)
unfolding first_non_empty
first_non_empty-append [] others = refl
first_non_empty-append (v ∷ values) others = elim (Bool-cases (is_empty v)) [
  | inl e ↦ rw e (first_non_empty-append values others)
  | inr e ↦ rw e (rw e refl)
]

-- the fields under the keys, the maps in order and in each the keys in order
abbrev pub candidates : List String → List Map → List String
candidates keys [] = []
candidates keys (m ∷ maps) = map (get_string_field m) keys ++ candidates keys maps

string_from_keys_lem :
    (m : Map) (keys : List String)
    → string_from_keys m keys ≡ first_non_empty (map (get_string_field m) keys)
unfolding string_from_keys first_non_empty
string_from_keys_lem m [] = refl
string_from_keys_lem m (key ∷ keys) = rw (string_from_keys_lem m keys) refl

-- `stringFrom` is the first text that is not empty among the fields under the keys, all keys in the
-- first map before those in the next.
pub string_from_lem :
    (keys : List String) (maps : List Map)
    → string_from keys maps ≡ first_non_empty (candidates keys maps)
unfolding string_from first_non_empty
string_from_lem keys [] = refl
string_from_lem keys (m ∷ maps) =
    rw (string_from_keys_lem m keys, string_from_lem keys maps)
      (sym (first_non_empty-append (map (get_string_field m) keys) (candidates keys maps)))
