-- ===== src/Cdevents/Links/Idempotent.antt =====
-- links.go: `NormalizeLinks` again.
use mathlib.Core.List.{append-nil, append_assoc}
use cdevents_otel_bridge.Prelude.{
  List, [], ◌∷◌, ◌++◌, ◌≡◌, ◌≢◌, refl, sym, ap, ◌∙◌, inl, inr, false, ◌==◌, eq_iff, is_empty, All,
  All-of_mem, mem-All, Bool-cases,
}
use cdevents_otel_bridge.Models.{Link}
use cdevents_otel_bridge.Cdevents.{CdEvent}
use cdevents_otel_bridge.Cdevents.Links.{
  Merge, link_key, add_all, empty_merge, merge_links, normalize_links,
}
use cdevents_otel_bridge.Cdevents.Links.Laws.{
  HasDistinctLinks, is_seen, remember, skipped, kept, add-cases, is_seen-remember, not_seen,
  merge_links-IsCanonical,
}

still_unseen :
    (m : Merge) (x y : Link)
    → link_key x ≢ link_key y
    → is_seen m y ≡ false
    → is_seen (remember m x) y ≡ false
still_unseen m x y d h = elim (Bool-cases (link_key x == link_key y)) [
  | inl e ↦ absurd (d ((eq_iff (link_key x) (link_key y)).0 e))
  | inr e ↦ rw (is_seen-remember m x y) (rw e h)
]

-- Links with distinct keys and a target are all merged, in their order.
add_all-HasDistinctLinks :
    (m : Merge) (links : List Link)
    → All (λ x. is_empty x.link_id ≡ false) links
    → HasDistinctLinks links
    → All (λ x. is_seen m x ≡ false) links
    → (add_all m links).merged ≡ m.merged ++ links
unfolding add_all
add_all-HasDistinctLinks m [] t d f = sym (append-nil m.merged)
add_all-HasDistinctLinks m (x ∷ links) (t, ts) (d, ds) (f, fs) = elim (add-cases m x) [
  | skipped (inl e) _ ↦ absurd (not_seen t e)
  | skipped (inr e) _ ↦ absurd (not_seen f e)
  | kept e s a ↦
      ap (λ z. (add_all z links).merged) a
      ∙ add_all-HasDistinctLinks (remember m x) links ts ds (
          All-of_mem _ links
            (λ y q. still_unseen m x y (mem-All _ links d q) (mem-All _ links fs q)))
      ∙ append_assoc m.merged (x ∷ []) links
]

merge_links_again :
    (context_links links : List Link)
    → merge_links (merge_links context_links links) [] ≡ merge_links context_links links
unfolding merge_links
merge_links_again context_links links =
    let c = merge_links-IsCanonical context_links links in
    add_all-HasDistinctLinks empty_merge (merge_links context_links links) c.targets c.distinct
      (All-of_mem _ (merge_links context_links links) (λ x q. refl))

-- To normalize the links of an event again changes nothing.
pub normalize_links_idempotent :
    (e : CdEvent) → normalize_links (normalize_links e) ≡ normalize_links e
unfolding normalize_links
normalize_links_idempotent e =
    ap (λ links. record e { context = record e.context { links = links }; links = [] })
      (merge_links_again e.context.links e.links)
