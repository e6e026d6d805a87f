-- ===== src/Cdevents/Links.antt =====
-- links.go: the canonical list of an event's links, and the questions asked of it. A nil event is
-- `none`.
pub mod Laws
pub mod Idempotent
use cdevents_otel_bridge.Prelude.{
  String, List, [], ◌∷◌, ◌++◌, Option, none, some, Bool, true, false, ◌||◌, ◌==◌, ◌<>◌, is_empty,
  if◌then◌else◌,
}
use cdevents_otel_bridge.Dict
use cdevents_otel_bridge.Dict.{Dict}
use cdevents_otel_bridge.Models.{Link}
use cdevents_otel_bridge.Cdevents.{CdEvent}

-- The variables of `NormalizeLinks` that the closure `add` changes.
pub record Merge : Type 0 where
  pub merged : List Link
  pub seen : Dict Bool

abbrev pub nul : String
nul = "\0"

-- the key under which a link is remembered
unfoldable pub link_key : Link → String
link_key link = link.link_type <> nul <> link.link_id

-- `seen[key]`, which is false where the key is missing
abbrev pub is_set : Option Bool → Bool
is_set none = false
is_set (some b) = b

unfoldable pub add : Merge → Link → Merge
unfolding link_key Dict.get Dict.put
add m link =
    if is_empty link.link_id
    then m
    else if is_set (Dict.get m.seen (link_key link))
    then m
    else record { merged = m.merged ++ link ∷ []; seen = Dict.put m.seen (link_key link) true }

unfoldable pub add_all : Merge → List Link → Merge
unfolding add
add_all m [] = m
add_all m (link ∷ links) = add_all (add m link) links

abbrev pub empty_merge : Merge
empty_merge = record { merged = []; seen = [] }

-- the list that `NormalizeLinks` leaves in the context, from the two lists of the event
unfoldable pub merge_links : List Link → List Link → List Link
unfolding add_all
merge_links context_links links = (add_all (add_all empty_merge context_links) links).merged

-- `NormalizeLinks` at an event that is not nil: what it leaves in `*event`
unfoldable pub normalize_links : CdEvent → CdEvent
unfolding merge_links
normalize_links e = record e {
  context = record e.context { links = merge_links e.context.links e.links };
  links = [];
}

unfoldable pub extract_links : Option CdEvent → List Link
extract_links none = []
extract_links (some e) = e.context.links

-- the loop of `GetLinkedEventIDs`, and of the correlator's `LinkedEventIDs`
unfoldable pub link_ids : List Link → List String
link_ids [] = []
link_ids (link ∷ links) =
    let rest = link_ids links in if is_empty link.link_id then rest else link.link_id ∷ rest

unfoldable pub get_linked_event_ids : Option CdEvent → List String
unfolding link_ids
get_linked_event_ids none = []
get_linked_event_ids (some e) = link_ids e.context.links

unfoldable pub any_of_type : List Link → String → Bool
any_of_type [] link_type = false
any_of_type (link ∷ links) link_type = link.link_type == link_type || any_of_type links link_type

unfoldable pub has_link_type : Option CdEvent → String → Bool
unfolding any_of_type
has_link_type none link_type = false
has_link_type (some e) link_type =
    if is_empty link_type then false else any_of_type e.context.links link_type
