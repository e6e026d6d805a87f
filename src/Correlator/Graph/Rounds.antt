-- ===== src/Correlator/Graph/Rounds.antt =====
-- graph.go: what the loop over the links of one event leaves.
use mathlib.Core.List.Memᴰ
use mathlib.Core.List.{append_assoc, append-nil}
use cdevents_otel_bridge.Prelude.{
  ℕ, ◌+◌, String, List, [], ◌∷◌, ◌++◌, ◌≡◌, ◌≢◌, refl, sym, ap, ◌∙◌, ◌⊎◌, inl, inr, true, ◌||◌,
  is_empty, ◌==◌, eq_iff, arith, All, All-append, Bool-cases, Memᴰ, if◌then◌else◌,
}
use cdevents_otel_bridge.Models.{Link}
use cdevents_otel_bridge.Correlator.Graph.{QueueItem, Frontier, is_visited, follow, follow_all}

abbrev pub item : String → ℕ → QueueItem
item id depth = record { id = id; depth = depth }

-- The items that one link adds to the queue.
abbrev pub new_items : ℕ → Frontier → Link → List QueueItem
new_items depth f link =
    if is_empty link.link_id || is_visited f.visited link.link_id
    then []
    else item link.link_id (depth + 1) ∷ []

queue-follow :
    (depth : ℕ) (f : Frontier) (link : Link)
    → (follow depth f link).queue ≡ f.queue ++ new_items depth f link
unfolding follow
queue-follow depth f link =
    elim (Bool-cases (is_empty link.link_id || is_visited f.visited link.link_id)) [
      | inl h ↦ rw (h, append-nil)
      | inr h ↦ rw h
    ]

-- The items that a list of links adds to the queue.
unfoldable pub added : ℕ → Frontier → List Link → List QueueItem
unfolding follow
added depth f [] = []
added depth f (link ∷ links) = new_items depth f link ++ added depth (follow depth f link) links

pub queue-follow_all :
    (depth : ℕ) (f : Frontier) (links : List Link)
    → (follow_all depth f links).queue ≡ f.queue ++ added depth f links
unfolding follow_all added
queue-follow_all depth f [] = sym (append-nil _)
queue-follow_all depth f (link ∷ links) =
    queue-follow_all depth (follow depth f link) links
    ∙ ap (λ q. q ++ added depth (follow depth f link) links) (queue-follow depth f link)
    ∙ append_assoc f.queue (new_items depth f link) _

module _ {κ} (P : QueueItem → Type κ) (depth : ℕ) where
  -- What holds of the target of each link holds of each added item.
  pub All-added :
      (f : Frontier) (links : List Link)
      → ((link : Link) → Memᴰ link links → link.link_id ≢ "" → P (item link.link_id (depth + 1)))
      → All P (added depth f links)
  unfolding added
  All-added f [] h = tt
  All-added f (link ∷ links) h =
      All-append P (new_items depth f link) _
        (elim (Bool-cases (is_empty link.link_id || is_visited f.visited link.link_id)) [
          | inl e ↦ rw e tt
          | inr e ↦ rw e (h link (Memᴰ.head refl) (λ p. ground (arith, eq_iff link.link_id "")), tt)
        ])
        (All-added (follow depth f link) links (λ l m. h l (Memᴰ.tail m)))

pub visited-follow :
    (depth : ℕ) (f : Frontier) (link : Link) (id : String)
    → is_visited f.visited id ≡ true
    → is_visited (follow depth f link).visited id ≡ true
unfolding follow is_visited
visited-follow depth f link id h = ground arith

pub visited-follow_all :
    (depth : ℕ) (f : Frontier) (links : List Link) (id : String)
    → is_visited f.visited id ≡ true
    → is_visited (follow_all depth f links).visited id ≡ true
unfolding follow_all
visited-follow_all depth f [] id h = h
visited-follow_all depth f (link ∷ links) id h =
    visited-follow_all depth (follow depth f link) links id (visited-follow depth f link id h)

follow_visits :
    (depth : ℕ) (f : Frontier) (link : Link)
    → link.link_id ≢ ""
    → is_visited (follow depth f link).visited link.link_id ≡ true
unfolding follow is_visited
follow_visits depth f link h =
    ground (arith, eq_iff link.link_id "", eq_iff link.link_id link.link_id)

-- The target of each link is visited behind the loop.
pub follow_all_visits :
    (depth : ℕ) (f : Frontier) (links : List Link) (link : Link)
    → Memᴰ link links
    → link.link_id ≢ ""
    → is_visited (follow_all depth f links).visited link.link_id ≡ true
unfolding follow_all
follow_all_visits depth f [] link m h = absurd (Memᴰ.not-nil m)
follow_all_visits depth f (l ∷ links) link m h = elim (Memᴰ.cases_cons m) [
  | inl e ↦
      let now = follow_visits depth f l (λ p. h (ap (λ (x : Link). x.link_id) e ∙ p)) in
      visited-follow_all depth (follow depth f l) links link.link_id
        (rw (ap (λ (x : Link). x.link_id) e) now)
  | inr r ↦ follow_all_visits depth (follow depth f l) links link r h
]

follow-fresh :
    (depth : ℕ) (f : Frontier) (link : Link) (id : String)
    → is_visited (follow depth f link).visited id ≡ true
    → (is_visited f.visited id ≡ true) ⊎ Memᴰ (item id (depth + 1)) (new_items depth f link)
unfolding follow is_visited
follow-fresh depth f link id h =
    elim (Bool-cases (is_empty link.link_id || is_visited f.visited link.link_id)) [
      | inl e ↦ inl (rw (e, follow) at h)
      | inr e ↦ elim (Bool-cases (link.link_id == id)) [
        | inl s ↦ inr (rw e (Memᴰ.head (ap (λ t. item t (depth + 1)) (sym ((eq_iff _ _).0 s)))))
        | inr s ↦ inl (ground arith)
      ]
    ]

-- What is visited behind the loop was visited before, or has been added to the queue.
pub follow_all-fresh :
    (depth : ℕ) (f : Frontier) (links : List Link) (id : String)
    → is_visited (follow_all depth f links).visited id ≡ true
    → (is_visited f.visited id ≡ true) ⊎ Memᴰ (item id (depth + 1)) (added depth f links)
unfolding follow_all added
follow_all-fresh depth f [] id h = inl h
follow_all-fresh depth f (link ∷ links) id h =
    elim (follow_all-fresh depth (follow depth f link) links id h) [
      | inl v ↦ elim (follow-fresh depth f link id v) [
        | inl w ↦ inl w
        | inr m ↦ inr (Memᴰ.append_left _ m)
      ]
      | inr m ↦ inr (Memᴰ.append_right (new_items depth f link) m)
    ]
