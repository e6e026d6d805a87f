-- ===== src/Correlator/Chain/Index.antt =====
-- correlator.go: the map in which `BuildChain` merges the linked events and their siblings.
use mathlib.Core.List.Memᴰ
use mathlib.Core.Path.{subst}
use cdevents_otel_bridge.Prelude.{
  String, List, [], ◌∷◌, ◌≡◌, refl, sym, inl, inr, some, All, Memᴰ, Option-cases, ◌==◌, eq_refl,
  Bool-cases,
}
use cdevents_otel_bridge.Dict
use cdevents_otel_bridge.Dict.{Dict, HasDistinctKeys, MapRange}
use cdevents_otel_bridge.Dict.Laws.{get-put, put-HasDistinctKeys, All-put}
use cdevents_otel_bridge.Dict.Ties.{IsKeyed}
use cdevents_otel_bridge.Cdevents.{StoredEvent}
use cdevents_otel_bridge.Correlator.Chain.{index_events, add_unseen, add_siblings}

abbrev pub event_id : StoredEvent → String
event_id e = e.id

pub record IsIndex (m : Dict StoredEvent) : Type 0 where
  pub distinct : HasDistinctKeys m
  pub keyed : IsKeyed event_id m

put-IsIndex : (m : Dict StoredEvent) (e : StoredEvent) → IsIndex m → IsIndex (Dict.put m e.id e)
put-IsIndex m e h = record {
  distinct = put-HasDistinctKeys m e.id e h.distinct;
  keyed = All-put (λ k (v : StoredEvent). k ≡ v.id) m e.id e h.keyed refl;
}

pub index_events-IsIndex :
    (m : Dict StoredEvent) (events : List StoredEvent) → IsIndex m → IsIndex (index_events m events)
unfolding index_events
index_events-IsIndex m [] h = h
index_events-IsIndex m (e ∷ events) h =
    index_events-IsIndex (Dict.put m e.id e) events (put-IsIndex m e h)

add_unseen-IsIndex : (m : Dict StoredEvent) (e : StoredEvent) → IsIndex m → IsIndex (add_unseen m e)
unfolding add_unseen
add_unseen-IsIndex m e h = elim (Option-cases (Dict.get m e.id)) [
  | inl n ↦ rw (n, add_unseen) (put-IsIndex m e h)
  | inr (x, n) ↦ rw (n, add_unseen) h
]

pub add_siblings-IsIndex :
    (m : Dict StoredEvent) (events : List StoredEvent) → IsIndex m → IsIndex (add_siblings m events)
unfolding add_siblings
add_siblings-IsIndex m [] h = h
add_siblings-IsIndex m (e ∷ events) h =
    add_siblings-IsIndex (add_unseen m e) events (add_unseen-IsIndex m e h)

-- An id has an entry.
abbrev pub Has : Dict StoredEvent → String → Type 0
Has m id = (x : StoredEvent) × (Dict.get m id ≡ some x)

put-Has :
    (m : Dict StoredEvent) (e : StoredEvent) (id : String) → Has m id → Has (Dict.put m e.id e) id
put-Has m e id (x, h) = elim (Bool-cases (e.id == id)) [
  | inl s ↦ (e, rw get-put (rw s))
  | inr s ↦ (x, rw get-put (rw s h))
]

put-Has_self : (m : Dict StoredEvent) (e : StoredEvent) → Has (Dict.put m e.id e) e.id
put-Has_self m e = (e, rw get-put (rw eq_refl))

add_unseen-Has :
    (m : Dict StoredEvent) (e : StoredEvent) (id : String) → Has m id → Has (add_unseen m e) id
unfolding add_unseen
add_unseen-Has m e id h = elim (Option-cases (Dict.get m e.id)) [
  | inl n ↦ rw (n, add_unseen) (put-Has m e id h)
  | inr (x, n) ↦ rw (n, add_unseen) h
]

add_unseen-Has_self : (m : Dict StoredEvent) (e : StoredEvent) → Has (add_unseen m e) e.id
unfolding add_unseen
add_unseen-Has_self m e = elim (Option-cases (Dict.get m e.id)) [
  | inl n ↦ rw (n, add_unseen) (put-Has_self m e)
  | inr (x, n) ↦ rw (n, add_unseen) (x, n)
]

index_events-Has :
    (m : Dict StoredEvent) (events : List StoredEvent) (id : String)
    → Has m id
    → Has (index_events m events) id
unfolding index_events
index_events-Has m [] id h = h
index_events-Has m (e ∷ events) id h =
    index_events-Has (Dict.put m e.id e) events id (put-Has m e id h)

pub index_events-Has_mem :
    (m : Dict StoredEvent) (events : List StoredEvent) (e : StoredEvent)
    → Memᴰ e events
    → Has (index_events m events) e.id
unfolding index_events
index_events-Has_mem m [] e q = absurd (Memᴰ.not-nil q)
index_events-Has_mem m (x ∷ events) e q = elim (Memᴰ.cases_cons q) [
  | inl s ↦
      index_events-Has (Dict.put m x.id x) events e.id
        (subst (λ (z : StoredEvent). Has (Dict.put m x.id x) z.id) (sym s) (put-Has_self m x))
  | inr r ↦ index_events-Has_mem (Dict.put m x.id x) events e r
]

pub add_siblings-Has :
    (m : Dict StoredEvent) (events : List StoredEvent) (id : String)
    → Has m id
    → Has (add_siblings m events) id
unfolding add_siblings
add_siblings-Has m [] id h = h
add_siblings-Has m (e ∷ events) id h =
    add_siblings-Has (add_unseen m e) events id (add_unseen-Has m e id h)

pub add_siblings-Has_mem :
    (m : Dict StoredEvent) (events : List StoredEvent) (e : StoredEvent)
    → Memᴰ e events
    → Has (add_siblings m events) e.id
unfolding add_siblings
add_siblings-Has_mem m [] e q = absurd (Memᴰ.not-nil q)
add_siblings-Has_mem m (x ∷ events) e q = elim (Memᴰ.cases_cons q) [
  | inl s ↦
      add_siblings-Has (add_unseen m x) events e.id
        (subst (λ (z : StoredEvent). Has (add_unseen m x) z.id) (sym s) (add_unseen-Has_self m x))
  | inr r ↦ add_siblings-Has_mem (add_unseen m x) events e r
]

module _ {κ} (P : StoredEvent → Type κ) where
  pub index_events-All :
      (m : Dict StoredEvent) (events : List StoredEvent)
      → All (λ e. P e.1) m
      → All P events
      → All (λ e. P e.1) (index_events m events)
  unfolding index_events
  index_events-All m [] h k = h
  index_events-All m (e ∷ events) h (k, ks) =
      index_events-All (Dict.put m e.id e) events (All-put (λ _ v. P v) m e.id e h k) ks

  pub add_siblings-All :
      (m : Dict StoredEvent) (events : List StoredEvent)
      → All (λ e. P e.1) m
      → All P events
      → All (λ e. P e.1) (add_siblings m events)
  unfolding add_siblings add_unseen
  add_siblings-All m [] h k = h
  add_siblings-All m (e ∷ events) h (k, ks) = elim (Option-cases (Dict.get m e.id)) [
    | inl n ↦
        rw (n, add_unseen)
          (add_siblings-All (Dict.put m e.id e) events (All-put (λ _ v. P v) m e.id e h k) ks)
    | inr (x, n) ↦ rw (n, add_unseen) (add_siblings-All m events h ks)
  ]
