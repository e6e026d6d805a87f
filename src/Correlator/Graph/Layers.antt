-- ===== src/Correlator/Graph/Layers.antt =====
-- graph.go: the depths in the queue of the walk. Items of two neighbouring depths at most stand in
-- it, the less deep first.
use mathlib.Core.List.Memᴰ
use cdevents_otel_bridge.Prelude.{
  ℕ, ◌+◌, ◌≤◌, List, [], ◌∷◌, ◌++◌, ◌≡◌, ◌⊎◌, inl, inr, arith, All, All-append, Memᴰ,
}
use cdevents_otel_bridge.Correlator.Graph.{QueueItem}

-- An item that has left the queue or stands in it.
abbrev pub Known : List QueueItem → List QueueItem → QueueItem → Type 0
Known done queue x = Memᴰ x done ⊎ Memᴰ x queue

-- Depths rise along the queue, by one at most.
abbrev pub IsLayered : List QueueItem → Type 0
IsLayered [] = Unit
IsLayered (x ∷ xs) = All (λ y. (x.depth ≤ y.depth) × (y.depth ≤ x.depth + 1)) xs × IsLayered xs

-- Nothing that has left the queue is deeper than one below its head.
abbrev pub IsAhead : List QueueItem → List QueueItem → Type 0
IsAhead done [] = Unit
IsAhead done (x ∷ xs) = All (λ y. y.depth ≤ x.depth + 1) done

pub Known-move :
    (done queue : List QueueItem) (c x : QueueItem)
    → Known done (c ∷ queue) x
    → Known (c ∷ done) queue x
Known-move done queue c x (inl m) = inl (Memᴰ.tail m)
Known-move done queue c x (inr m) = elim (Memᴰ.cases_cons m) [
  | inl e ↦ inl (Memᴰ.head e)
  | inr r ↦ inr r
]

pub IsLayered-append :
    (d : ℕ) (queue more : List QueueItem)
    → IsLayered queue
    → All (λ y. (d ≤ y.depth) × (y.depth ≤ d + 1)) queue
    → All (λ y. y.depth ≡ d + 1) more
    → IsLayered (queue ++ more)
IsLayered-append d [] [] h k l = tt
IsLayered-append d [] (x ∷ more) h k (e, l) = (same x more e l, IsLayered-append d [] more tt tt l)
  where
    same :
        (x : QueueItem) (more : List QueueItem)
        → x.depth ≡ d + 1
        → All (λ y. y.depth ≡ d + 1) more
        → All (λ y. (x.depth ≤ y.depth) × (y.depth ≤ x.depth + 1)) more
    same x [] e l = tt
    same x (y ∷ more) e (f, l) = ((omega arith, omega arith), same x more e l)
IsLayered-append d (x ∷ queue) more (h, hs) ((lo, hi), k) l = (
  All-append (λ y. (x.depth ≤ y.depth) × (y.depth ≤ x.depth + 1)) queue more h (deeper more l),
  IsLayered-append d queue more hs k l,
)
  where
    deeper :
        (more : List QueueItem)
        → All (λ y. y.depth ≡ d + 1) more
        → All (λ y. (x.depth ≤ y.depth) × (y.depth ≤ x.depth + 1)) more
    deeper [] l = tt
    deeper (y ∷ more) (e, l) = ((omega arith, omega arith), deeper more l)

-- With one more item done, the rest of the queue is still ahead.
pub IsAhead-move :
    (done : List QueueItem) (c : QueueItem) (queue : List QueueItem)
    → IsLayered (c ∷ queue)
    → IsAhead done (c ∷ queue)
    → IsAhead (c ∷ done) queue
IsAhead-move done c [] l a = tt
IsAhead-move done c (x ∷ queue) (((lo, hi), _), _) a = (omega arith, further done a)
  where
    further :
        (ys : List QueueItem)
        → All (λ y. y.depth ≤ c.depth + 1) ys
        → All (λ y. y.depth ≤ x.depth + 1) ys
    further [] h = tt
    further (y ∷ ys) (h, hs) = (omega arith, further ys hs)

pub IsAhead-append :
    (done : List QueueItem) (c : QueueItem) (queue more : List QueueItem)
    → All (λ y. y.depth ≤ c.depth + 1) done
    → IsAhead (c ∷ done) queue
    → All (λ y. y.depth ≡ c.depth + 1) more
    → IsAhead (c ∷ done) (queue ++ more)
IsAhead-append done c (x ∷ queue) more b a l = a
IsAhead-append done c [] [] b a l = tt
IsAhead-append done c [] (x ∷ more) b a (e, l) = (omega arith, further done b)
  where
    further :
        (ys : List QueueItem)
        → All (λ y. y.depth ≤ c.depth + 1) ys
        → All (λ y. y.depth ≤ x.depth + 1) ys
    further [] h = tt
    further (y ∷ ys) (h, hs) = (omega arith, further ys hs)
