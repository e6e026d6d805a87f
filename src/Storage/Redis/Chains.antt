-- ===== src/Storage/Redis/Chains.antt =====
-- redis.go: what `GetEventsByChain` returns on a valid server, and after `SaveEvent`.
use mathlib.Core.Path.{subst}
use cdevents_otel_bridge.Prelude.{
  String, Bool, List, some, true, false, ◌≡◌, ◌≢◌, refl, sym, ◌∙◌, ap, ◌<>◌, ◌↔◌, ◌⊎◌, inl, inr,
  Memᴰ, Permᴰ, All-of_mem, arith, Option-cases, Bool-cases, ◌==◌, eq_iff, is_empty, true_not_false,
  if◌then◌else◌, eq_refl,
}
use cdevents_otel_bridge.Prelude.Int.{pos, ltb_ℤ}
use cdevents_otel_bridge.Errors.{Result, ok}
use cdevents_otel_bridge.Text.Separators.{has_prefix-append}
use cdevents_otel_bridge.Sorting.Pairs.{Pairwise, Pairwise-of_sorted}
use cdevents_otel_bridge.Sorting.Laws.{sort-IsSorted, sort-perm, mem-sort}
use cdevents_otel_bridge.Models.{Deployment}
use cdevents_otel_bridge.Cdevents.{StoredEvent}
use cdevents_otel_bridge.Storage.{event_less, sort_events_newest_first}
use cdevents_otel_bridge.Storage.Order.{event_less-IsOrder, IsNewerEvent, event_less-IsNewerEvent}
use cdevents_otel_bridge.Storage.Memory.Lookups.{live}
use cdevents_otel_bridge.Storage.Redis.{
  Client, Codec, RedisStorage, set, s_add, decoded, get_event, get_events_by_chain, save_event,
  event_commands, event_key_prefix, chain_key_prefix,
}
use cdevents_otel_bridge.Storage.Redis.Server.{Server, IsReached, Encodes}
use cdevents_otel_bridge.Storage.Redis.Keys.{event_ne_chain}
use cdevents_otel_bridge.Storage.Redis.Invariant.{IsValid, members-set_other, set_event-IsValid}
use cdevents_otel_bridge.Storage.Redis.Saving.{save_event_runs, event_commands-IsValid}
use cdevents_otel_bridge.Storage.Redis.Lookups.{get_event-save_event}
use cdevents_otel_bridge.Storage.Redis.Scanning.{IsRead, finds, collect-finds}

ok_if :
    (b : Bool) (f e : StoredEvent) (r : Result StoredEvent)
    → r ≡ ok e
    → (if b then ok f else r) ≡ ok (if b then f else e)
ok_if true f e r h = refl
ok_if false f e r h = h

module _ {S : Type 0} (client : Client S) (server : Server client) (deployments : Codec Deployment)
    (events : Codec StoredEvent) where
  abbrev Valid : RedisStorage S → Type 0
  Valid r = IsValid client server deployments events r.server

  abbrev pub InChain : RedisStorage S → String → String → Type 0
  InChain r chain_id id = Memᴰ id (server.members r.server (chain_key_prefix <> chain_id))

  event-IsRead :
      (r : RedisStorage S) (id : String) → Valid r → IsRead (get_event client events r live id)
  unfolding get_event decoded
  event-IsRead r id v =
      let key = event_key_prefix <> id in
      let (no_set, holds) = v.events_keyed key (has_prefix-append event_key_prefix id) in
      elim (Option-cases (server.text r.server key)) [
        | inl e ↦ inr (rw (server.get-missing r.server key e no_set) refl)
        | inr (t, e) ↦
            let (a, coded, keyed) = holds t e in
            inl (a, rw (server.get-text r.server key t e, coded) refl)
      ]

  -- On a reached server whose keys hold what the backend writes, and for a chain id that is not
  -- empty, `GetEventsByChain` returns exactly the events that `GetEvent` finds for the members of
  -- the chain's set, one for each member that it finds, newest first: by their times, and events of
  -- one time by their ids.
  pub get_events_by_chain_exact :
      (r : RedisStorage S) (chain_id : String)
      → Valid r
      → chain_id ≢ ""
      → (result : List StoredEvent) × (get_events_by_chain client events r live chain_id
          ≡ ok result)
        × Pairwise IsNewerEvent result
        × Permᴰ result (
            finds
              (get_event client events r live)
              (server.members r.server (chain_key_prefix <> chain_id)))
        × ((e : StoredEvent)
            → Memᴰ e result ↔ (
                (id : String) × InChain r chain_id id × (get_event client events r live id ≡ ok e)))
  unfolding get_events_by_chain
  get_events_by_chain_exact r chain_id v h =
      let key = chain_key_prefix <> chain_id in
      let ids = server.members r.server key in
      let (found, p, same, exact) = collect-finds (get_event client events r live) ids (
        All-of_mem (λ id. IsRead (get_event client events r live id)) ids
          (λ id _. event-IsRead r id v)) in
      let no_text = v.chains_are_sets key (has_prefix-append chain_key_prefix chain_id) in
      let named : is_empty chain_id ≡ false = ground (arith, eq_iff chain_id "") in
      (
        sort_events_newest_first found,
        rw (named, server.s_members-members r.server key no_text, p) refl,
        Pairwise-of_sorted IsNewerEvent event_less _ event_less-IsNewerEvent
            (sort-IsSorted event_less event_less-IsOrder found),
        rw (sym same) (sort-perm event_less found),
        λ e. (
          λ q. (exact e).0 ((mem-sort event_less e found).0 q),
          λ q. (mem-sort event_less e found).1 ((exact e).1 q),
        ),
      )

  module _ (reached : IsReached client server) where
    module _ (r : RedisStorage S) (e : StoredEvent) (t : String) (v : Valid r)
        (p : Encodes events e t) where
      saved-Valid : Valid (save_event client events r live (some e)).1
      saved-Valid =
          rw (save_event_runs client server reached deployments events r e t p.1 v p.0)
            (event_commands-IsValid client server reached deployments events r e t p.1 v)

      abbrev written : S
      written = server.after r.server (set (event_key_prefix <> e.id) t r.ttl)

      written-Valid : IsValid client server deployments events written
      written-Valid = set_event-IsValid client server deployments events r.server e t r.ttl p.1 v

      module _ (chain_id id : String) where
        -- SET of an event leaves the sets alone.
        in_written :
            InChain r chain_id id → Memᴰ id (server.members written (chain_key_prefix <> chain_id))
        in_written = subst (Memᴰ id) (
            sym (
              members-set_other client server r.server (event_key_prefix <> e.id) t r.ttl
                (chain_key_prefix <> chain_id)
                (event_ne_chain (event_key_prefix <> e.id) (chain_key_prefix <> chain_id)
                  (has_prefix-append event_key_prefix e.id)
                  (has_prefix-append chain_key_prefix chain_id))))

        abbrev IsAdded : Type 0
        IsAdded = (e.chain_id ≡ chain_id) × (id ≡ e.id)

        in_added :
            IsAdded ⊎ InChain r chain_id id
            → Memᴰ id (
                server.members
                  (server.after written (s_add (chain_key_prefix <> e.chain_id) e.id))
                  (chain_key_prefix <> chain_id))
        in_added h =
            let key = chain_key_prefix <> e.chain_id in
            let j = chain_key_prefix <> chain_id in
            elim (Bool-cases (key == j)) [
              | inl q ↦
                  let same : key ≡ j = (eq_iff key j).0 q in
                  let no_text =
                    written-Valid.chains_are_sets key
                      (has_prefix-append chain_key_prefix e.chain_id) in
                  subst (λ k. Memᴰ id (server.members (server.after written (s_add key e.id)) k))
                    same
                    ((server.members-s_add written key e.id id no_text).1 (elim h [
                      | inl (_, named) ↦ inl named
                      | inr m ↦ inr (
                          subst (λ k. Memᴰ id (server.members written k)) (sym same) (in_written m))
                    ]))
              | inr q ↦
                  let other : key ≢ j = λ same. true_not_false (sym ((eq_iff key j).1 same) ∙ q) in
                  elim h [
                    | inl (same, _) ↦ absurd (other (ap (λ x. chain_key_prefix <> x) same))
                    | inr m ↦
                        subst (Memᴰ id) (sym (server.members-s_add_other written key e.id j other))
                          (in_written m)
                  ]
            ]

        -- Behind `SaveEvent`, the set of the event's chain holds its id, and no set has lost one.
        InChain-save_event :
            ((chain_id ≢ "") × IsAdded) ⊎ InChain r chain_id id
            → InChain (save_event client events r live (some e)).1 chain_id id
        unfolding event_commands
        InChain-save_event h =
            rw (save_event_runs client server reached deployments events r e t p.1 v p.0)
              (elim (Bool-cases (is_empty e.chain_id)) [
                | inl q ↦ rw q (elim h [
                  | inl (named, (same, _)) ↦ absurd (named (sym same ∙ (eq_iff e.chain_id "").0 q))
                  | inr m ↦ in_written m
                ])
                | inr q ↦
                    let m = in_added (elim h [ inl (_, added) ↦ inl added | inr m ↦ inr m ]) in
                    elim (Bool-cases (ltb_ℤ (pos 0) r.ttl)) [
                      | inl l ↦
                          rw (q, l) (subst (Memᴰ id) (sym (server.members-expire _ _ _ r.ttl l)) m)
                      | inr l ↦ rw (q, l) m
                    ]
              ])

    -- On a reached server whose keys hold what the backend writes, `GetEventsByChain` lists a saved
    -- event, if it can be encoded and decoded back, under its own chain id, which is not empty, and
    -- still lists what then stands under its id once another such event is saved.
    pub get_events_by_chain_keeps :
        (r : RedisStorage S) (e f : StoredEvent) (t u : String)
        → Valid r
        → Encodes events e t
        → Encodes events f u
        → e.chain_id ≢ ""
        → (listed : List StoredEvent) × (later : List StoredEvent) × (get_events_by_chain client
              events
              (save_event client events r live (some e)).1
              live
              e.chain_id
            ≡ ok listed)
          × Memᴰ e listed
          × (get_events_by_chain client events
                (save_event client events
                  (save_event client events r live (some e)).1
                  live
                  (some f)).1
                live
                e.chain_id
              ≡ ok later)
          × Memᴰ (if f.id == e.id then f else e) later
    get_events_by_chain_keeps r e f t u v p q h =
        let r1 = (save_event client events r live (some e)).1 in
        let r2 = (save_event client events r1 live (some f)).1 in
        let v1 = saved-Valid r e t v p in
        let v2 = saved-Valid r1 f u v1 q in
        let (listed, l, _, _, exact) = get_events_by_chain_exact r1 e.chain_id v1 h in
        let (later, k, _, _, exact2) = get_events_by_chain_exact r2 e.chain_id v2 h in
        let m1 = InChain-save_event r e t v p e.chain_id e.id (inl (h, (refl, refl))) in
        let m2 = InChain-save_event r1 f u v1 q e.chain_id e.id (inr m1) in
        let g1 =
          get_event-save_event client server reached deployments events r e t e.id v p
          ∙ rw (eq_refl e.id) refl in
        let g2 = get_event-save_event client server reached deployments events r1 f u e.id v1 q in
        (
          listed,
          later,
          l,
          (exact e).1 (e.id, m1, g1),
          k,
          (exact2 _).1 (e.id, m2, g2 ∙ ok_if (f.id == e.id) f e _ g1),
        )
