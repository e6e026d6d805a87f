-- ===== src/Models/Decoding.antt =====
-- pkg/models/deployment.go: `Link.UnmarshalJSON`, after the JSON decoder has filled a `rawLink`,
-- and `firstNonEmpty`.
use cdevents_otel_bridge.Prelude.{String, List, [], ◌∷◌, is_empty, if◌then◌else◌}
use cdevents_otel_bridge.Models.{Link}

pub record RawLink : Type 0 where
  pub link_type : String
  pub link_id : String
  pub link_kind : String
  pub type : String
  pub target : String
  pub from_context_id : String

unfoldable pub first_non_empty : List String → String
first_non_empty [] = ""
first_non_empty (v ∷ values) = if is_empty v then first_non_empty values else v

unfoldable pub unmarshal_link : RawLink → Link
unfolding first_non_empty
unmarshal_link raw = record {
  link_type = first_non_empty (raw.link_kind ∷ raw.link_type ∷ raw.type ∷ []);
  link_id = first_non_empty (raw.link_id ∷ raw.target ∷ raw.from_context_id ∷ []);
}
