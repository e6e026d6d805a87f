-- ===== src/Cdevents/Links/Laws.antt =====
-- links.go: the list of links that `NormalizeLinks` leaves.
use mathlib.Core.List.Memᴰ
use mathlib.Core.Path.{subst}
use cdevents_otel_bridge.Prelude.{
  false_not_true, String, List, [], ◌∷◌, ◌++◌, ◌≡◌, ◌≢◌, refl, sym, ap, ◌∙◌, ◌⊎◌, inl, inr, Bool,
  true, false, ◌==◌, eq_iff, eq_refl, is_empty, ◌<>◌, All, All-append, All-of_mem, mem-All, Memᴰ,
  if◌then◌else◌, Bool-cases,
}
use cdevents_otel_bridge.Dict
use cdevents_otel_bridge.Dict.Laws.{get-put}
use cdevents_otel_bridge.Models.{Link}
use cdevents_otel_bridge.Cdevents.Links.{
  Merge, link_key, is_set, add, add_all, empty_merge, merge_links,
}

-- The link is remembered.
abbrev pub is_seen : Merge → Link → Bool
is_seen m link = is_set (Dict.get m.seen (link_key link))

-- The type, a NUL and the target of a link.
abbrev pub type_and_target : Link → String
type_and_target x = x.link_type <> "\0" <> x.link_id

-- A link with a type and a target stands in a list.
abbrev pub HasKey : List Link → String → Type 0
HasKey links key = (x : Link) × Memᴰ x links × (type_and_target x ≡ key)

-- No two links of a list have the same type and target.
abbrev pub HasDistinctLinks : List Link → Type 0
HasDistinctLinks [] = Unit
HasDistinctLinks (x ∷ links) =
    All (λ y. type_and_target x ≢ type_and_target y) links × HasDistinctLinks links

-- The links are those of the sources that have a target, one of each key.
pub record IsCanonical (sources out : List Link) : Type 0 where
  pub targets : All (λ x. is_empty x.link_id ≡ false) out
  pub distinct : HasDistinctLinks out
  pub sound : All (λ x. Memᴰ x sources) out
  pub complete :
      (x : Link) → Memᴰ x sources → is_empty x.link_id ≡ false → HasKey out (type_and_target x)

abbrev pub remember : Merge → Link → Merge
remember m link = record {
  merged = m.merged ++ link ∷ [];
  seen = Dict.put m.seen (link_key link) true;
}

pub data Added (m : Merge) (x : Link) : Type 0 where
  skipped : (is_empty x.link_id ≡ true) ⊎ (is_seen m x ≡ true) → add m x ≡ m → Added m x
  kept : is_empty x.link_id ≡ false → is_seen m x ≡ false → add m x ≡ remember m x → Added m x

pub add-cases : (m : Merge) (x : Link) → Added m x
unfolding add
add-cases m x = elim (Bool-cases (is_empty x.link_id)) [
  | inl e ↦ skipped (inl e) (rw (e, add) refl)
  | inr e ↦ elim (Bool-cases (is_seen m x)) [
    | inl s ↦ skipped (inr s) (rw (e, s, add) refl)
    | inr s ↦ kept e s (rw (e, s, add) refl)
  ]
]

-- What each `add` of a link of a list keeps is kept by them all.
add_all_rule {κ} :
    (P : Merge → Type κ) (m : Merge) (links : List Link)
    → ((m : Merge) (x : Link) → Memᴰ x links → P m → P (add m x))
    → P m
    → P (add_all m links)
unfolding add_all
add_all_rule P m [] keeps h = h
add_all_rule P m (x ∷ links) keeps h =
    add_all_rule P (add m x) links (λ m y q. keeps m y (Memᴰ.tail q)) (keeps m x (Memᴰ.head refl) h)

-- What is remembered is what is merged, and what is merged is canonical as far as it goes.
record Inv (sources : List Link) (m : Merge) : Type 0 where
  targets : All (λ x. is_empty x.link_id ≡ false) m.merged
  distinct : HasDistinctLinks m.merged
  sound : All (λ x. Memᴰ x sources) m.merged
  merged_seen : All (λ x. is_seen m x ≡ true) m.merged
  seen_merged : (x : Link) → is_seen m x ≡ true → HasKey m.merged (type_and_target x)

pub is_seen-remember :
    (m : Merge) (x y : Link)
    → is_seen (remember m x) y ≡ (if link_key x == link_key y then true else is_seen m y)
is_seen-remember m x y = elim (Bool-cases (link_key x == link_key y)) [
  | inl e ↦ rw get-put (rw e refl)
  | inr e ↦ rw get-put (rw e refl)
]

pub not_seen : {b : Bool} → b ≡ false → b ≡ true → ⊥
not_seen f t = false_not_true (sym f ∙ t)

append-HasDistinctLinks :
    (links : List Link) (x : Link)
    → HasDistinctLinks links
    → All (λ y. type_and_target y ≢ type_and_target x) links
    → HasDistinctLinks (links ++ x ∷ [])
append-HasDistinctLinks [] x h k = (tt, tt)
append-HasDistinctLinks (y ∷ links) x (h, hs) (k, ks) =
    (All-append _ links (x ∷ []) h (k, tt), append-HasDistinctLinks links x hs ks)

remember_keeps : (m : Merge) (x y : Link) → is_seen m y ≡ true → is_seen (remember m x) y ≡ true
remember_keeps m x y h = elim (Bool-cases (link_key x == link_key y)) [
  | inl e ↦ rw (is_seen-remember m x y) (rw e refl)
  | inr e ↦ rw (is_seen-remember m x y) (rw e h)
]

remembers : (m : Merge) (x : Link) → is_seen (remember m x) x ≡ true
remembers m x = rw (is_seen-remember m x x) (rw eq_refl refl)

add-Inv :
    (sources : List Link) (m : Merge) (x : Link)
    → Memᴰ x sources
    → Inv sources m
    → Inv sources (add m x)
unfolding link_key
add-Inv sources m x q inv = elim (add-cases m x) [
  | skipped r e ↦ subst (Inv sources) (sym e) inv
  | kept e s a ↦ subst (Inv sources) (sym a) (record {
    targets = All-append _ m.merged (x ∷ []) inv.targets (e, tt);
    distinct = append-HasDistinctLinks m.merged x inv.distinct (
        All-of_mem _ m.merged (λ y r k.
          not_seen s
            (ap (λ t. is_set (Dict.get m.seen t)) (sym k) ∙ mem-All _ m.merged inv.merged_seen r)));
    sound = All-append _ m.merged (x ∷ []) inv.sound (q, tt);
    merged_seen =
        All-append _ m.merged (x ∷ [])
          (All-of_mem _ m.merged
            (λ y r. remember_keeps m x y (mem-All _ m.merged inv.merged_seen r)))
          (remembers m x, tt);
    seen_merged = λ y h. elim (Bool-cases (link_key x == link_key y)) [
      | inl same ↦ (
        x,
        Memᴰ.append_right m.merged (Memᴰ.head refl),
        (eq_iff (link_key x) (link_key y)).0 same,
      )
      | inr other ↦
          let (z, r, k) = inv.seen_merged y (rw (is_seen-remember m x y, other) at h) in
          (z, Memᴰ.append_left (x ∷ []) r, k)
    ];
  })
]

add-is_seen : (m : Merge) (x y : Link) → is_seen m y ≡ true → is_seen (add m x) y ≡ true
add-is_seen m x y h = elim (add-cases m x) [
  | skipped r e ↦ rw e h
  | kept e s a ↦ rw a (remember_keeps m x y h)
]

add-is_seen_self : (m : Merge) (x : Link) → is_empty x.link_id ≡ false → is_seen (add m x) x ≡ true
add-is_seen_self m x h = elim (add-cases m x) [
  | skipped (inl t) e ↦ absurd (not_seen h t)
  | skipped (inr t) e ↦ rw e t
  | kept e s a ↦ rw a (remembers m x)
]

-- Each link with a target is remembered in the end.
add_all-is_seen :
    (m : Merge) (links : List Link) (x : Link)
    → Memᴰ x links
    → is_empty x.link_id ≡ false
    → is_seen (add_all m links) x ≡ true
unfolding add_all
add_all-is_seen m [] x q h = absurd (Memᴰ.not-nil q)
add_all-is_seen m (y ∷ links) x q h = elim (Memᴰ.cases_cons q) [
  | inl e ↦
      add_all_rule (λ m. is_seen m x ≡ true) (add m y) links (λ m z _ k. add-is_seen m z x k)
        (subst (λ z. is_seen (add m z) x ≡ true) e (add-is_seen_self m x h))
  | inr r ↦ add_all-is_seen (add m y) links x r h
]

-- The list that `NormalizeLinks` leaves is made of links of the two lists of the event: each has a
-- target, no two have the same key (the type, a NUL and the target), and for each link of the two
-- lists with a target one with its key is there.
pub merge_links-IsCanonical :
    (context_links links : List Link)
    → IsCanonical (context_links ++ links) (merge_links context_links links)
unfolding merge_links
merge_links-IsCanonical context_links links = record {
  targets = inv.targets;
  distinct = inv.distinct;
  sound = inv.sound;
  complete = λ x q h. inv.seen_merged x (seen x q h);
}
  where
    sources : List Link
    sources = context_links ++ links

    first : Merge
    first = add_all empty_merge context_links

    inv : Inv sources (add_all first links)
    inv =
        add_all_rule (Inv sources) first links
          (λ m x q. add-Inv sources m x (Memᴰ.append_right context_links q))
          (add_all_rule (Inv sources) empty_merge context_links
            (λ m x q. add-Inv sources m x (Memᴰ.append_left links q))
            (record {
              targets = tt;
              distinct = tt;
              sound = tt;
              merged_seen = tt;
              seen_merged = λ x h. absurd (not_seen refl h);
            }))

    seen :
        (x : Link)
        → Memᴰ x sources
        → is_empty x.link_id ≡ false
        → is_seen (add_all first links) x ≡ true
    seen x q h = elim (Memᴰ.append_cases context_links q) [
      | inl r ↦
          add_all_rule (λ m. is_seen m x ≡ true) first links (λ m z _. add-is_seen m z x)
            (add_all-is_seen empty_merge context_links x r h)
      | inr r ↦ add_all-is_seen first links x r h
    ]
