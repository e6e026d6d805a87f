-- ===== src/Models/Json.antt =====
-- The values that `encoding/json` decodes into `any`, and Go's `map[string]any`. Only the texts and
-- the objects are ever looked into; a number is the text of its literal.
use cdevents_otel_bridge.Prelude.{String, Bool, Option, none, some, ◌==◌, if◌then◌else◌}

mutual
  pub data Json : Type 0 where
    null : Json
    bool : Bool → Json
    num : String → Json
    str : String → Json
    arr : Items → Json
    obj : Fields → Json

  pub data Items : Type 0 where
    nil : Items
    cons : Json → Items → Items

  -- A `map[string]any`: each key stands once, since a map holds it once.
  pub data Fields : Type 0 where
    end : Fields
    field : String → Json → Fields → Fields

-- A `map[string]any` that may be nil.
abbrev pub Map : Type 0
Map = Option Fields

-- val, ok := m[key], at a map that is not nil
unfoldable pub get : Fields → String → Option Json
get end key = none
get (field k v rest) key = if k == key then some v else get rest key
