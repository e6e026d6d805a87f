-- ===== src/Otelbridge/Resolver/Steps/Justified.antt =====
-- resolver.go: what overlapping calls return is what the inner resolver accounts for.
use mathlib.Core.List.Memᴰ
use mathlib.Core.Path.{subst}
use cdevents_otel_bridge.Prelude.{
  none_not_some, some_inj, String, List, [], ◌∷◌, ◌++◌, ◌≡◌, refl, sym, inl, inr, some, ◌==◌, All,
  All-of_mem, mem-All, Memᴰ, Bool-cases, Option-cases,
}
use cdevents_otel_bridge.Dict
use cdevents_otel_bridge.Dict.{Dict}
use cdevents_otel_bridge.Dict.Laws.{mem-of_get, All-put}
use cdevents_otel_bridge.Errors.{is_resolver_not_found}
use cdevents_otel_bridge.Time.{Time, before}
use cdevents_otel_bridge.Otelbridge.{Answer}
use cdevents_otel_bridge.Otelbridge.Resolver.{
  CacheEntry, CachedResolver, CacheOption, with_cache_ttl, with_negative_cache_ttl,
  new_cached_resolver, apply_option, apply_options, Pending, Begun, hit, miss, begin, store,
  stale_or, finish, invalidate, reset,
}
use cdevents_otel_bridge.Otelbridge.Resolver.Steps.{
  World, new_world, Step, return_hit, ask, return_answer, invalidates, resets, IsReachable, start,
  next, IsJustified, given, not_found,
}

IsJustified-later :
    {asked : List (String × Answer)} {service : String} {answer : Answer} (new : String × Answer)
    → IsJustified asked service answer
    → IsJustified (new ∷ asked) service answer
IsJustified-later new (given q) = given (Memᴰ.tail q)
IsJustified-later new (not_found other e q p n h) = not_found other e (Memᴰ.tail q) p n h

abbrev answer_of : CacheEntry → Answer
answer_of entry = record { deployment = entry.deployment; err = entry.err }

abbrev IsEntry : List (String × Answer) → String × CacheEntry → Type 0
IsEntry asked e = IsJustified asked e.0 (answer_of e.1)

abbrev IsWaiting : List (String × Answer) → Pending → Type 0
IsWaiting asked p = (entry : CacheEntry) → p.entry ≡ some entry → IsEntry asked (p.service, entry)

abbrev IsReturn : List (String × Answer) → String × Answer → Type 0
IsReturn asked r = IsJustified asked r.0 r.1

record Inv (w : World) : Type 0 where
  entries : All (IsEntry w.asked) w.resolver.entries
  waiting : All (IsWaiting w.asked) w.pending
  returns : All (IsReturn w.asked) w.returned

All-remove {ℓ κ} :
    {V : Type ℓ} (P : String × V → Type κ) (m : Dict V) (k : String)
    → All P m
    → All P (Dict.remove m k)
unfolding Dict.remove
All-remove P [] k h = h
All-remove P ((j, w) ∷ m) k (h, hs) = elim (Bool-cases (j == k)) [
  | inl e ↦ rw e (All-remove P m k hs)
  | inr e ↦ rw e (h, All-remove P m k hs)
]

All-later {ℓ} :
    {A : Type ℓ} (P Q : A → Type 0) (xs : List A) → ((a : A) → P a → Q a) → All P xs → All Q xs
All-later P Q [] f h = tt
All-later P Q (x ∷ xs) f (h, hs) = (f x h, All-later P Q xs f hs)

apply_options-entries :
    (r : CachedResolver) (opts : List CacheOption) → (apply_options r opts).entries ≡ r.entries
unfolding apply_options apply_option
apply_options-entries r [] = refl
apply_options-entries r (with_cache_ttl ttl ∷ opts) = apply_options-entries _ opts
apply_options-entries r (with_negative_cache_ttl ttl ∷ opts) = apply_options-entries _ opts

new-Inv : (opts : List CacheOption) → Inv (new_world opts)
unfolding new_cached_resolver
new-Inv opts = record {
  entries = subst (All (IsEntry [])) (sym (apply_options-entries _ opts)) tt;
  waiting = tt;
  returns = tt;
}

IsEntry-of :
    (w : World) (service : String) (entry : CacheEntry)
    → Inv w
    → Dict.get w.resolver.entries service ≡ some entry
    → IsEntry w.asked (service, entry)
IsEntry-of w service entry inv g =
    mem-All (IsEntry w.asked) w.resolver.entries inv.entries (mem-of_get _ service entry g)

abbrev IsSound : List (String × Answer) → String → Begun → Type 0
IsSound asked service (hit answer) = IsJustified asked service answer
IsSound asked service (miss p) = IsWaiting asked p

-- What a call returns at once is an entry's answer, and what a call keeps is an entry.
begin-IsSound :
    (w : World) (now : Time) (service : String)
    → Inv w
    → IsSound w.asked service (begin w.resolver now service)
unfolding begin
begin-IsSound w now service inv = elim (Option-cases (Dict.get w.resolver.entries service)) [
  | inl g ↦ rw (g, begin) (λ entry h. absurd (none_not_some h))
  | inr (entry, g) ↦ elim (Bool-cases (before now entry.expires_at)) [
    | inl b ↦ rw (g, b, begin) (IsEntry-of w service entry inv g)
    | inr b ↦
        rw (g, b, begin)
          (λ other h.
            subst (λ e. IsEntry w.asked (service, e)) (some_inj h)
              (IsEntry-of w service entry inv g))
  ]
]

-- What a call that got an answer returns, and the cache then, hold what is justified.
record IsFinished (asked : List (String × Answer)) (service : String)
    (result : Answer × CachedResolver) : Type 0 where
  answer : IsJustified asked service result.0
  entries : All (IsEntry asked) result.1.entries

stale_or-IsJustified :
    (asked : List (String × Answer)) (p : Pending) (answer : Answer)
    → IsWaiting asked p
    → IsJustified asked p.service answer
    → IsJustified asked p.service (stale_or p.entry answer)
unfolding stale_or
stale_or-IsJustified asked p answer waiting j = elim (Option-cases p.entry) [
  | inl n ↦ rw (n, stale_or) j
  | inr (entry, n) ↦ elim (Option-cases entry.err) [
    | inl m ↦
        rw (n, stale_or)
          (rw (m, stale_or)
            (subst
              (λ t. IsJustified asked p.service (record { deployment = entry.deployment; err = t }))
              m (waiting entry n)))
    | inr (e, m) ↦ rw (n, stale_or) (rw (m, stale_or) j)
  ]
]

finish-IsFinished :
    (asked : List (String × Answer)) (r : CachedResolver) (p : Pending) (answer : Answer)
    → All (IsEntry asked) r.entries
    → IsWaiting asked p
    → Memᴰ (p.service, answer) asked
    → IsFinished asked p.service (finish r p answer)
unfolding finish store
finish-IsFinished asked r p answer entries waiting q = elim (Option-cases answer.err) [
  | inl n ↦
      rw (n, finish)
        (record {
          answer = given q;
          entries =
              All-put (λ k e. IsEntry asked (k, e)) r.entries p.service _ entries
                (subst (IsJustified asked p.service)
                  (λ i. record { deployment = answer.deployment; err = n i }) (given q));
        })
  | inr (e, n) ↦ elim (Bool-cases (is_resolver_not_found e)) [
    | inl m ↦
        rw (n, finish)
          (rw (m, finish)
            (record {
              answer = given q;
              entries =
                  All-put (λ k e. IsEntry asked (k, e)) r.entries p.service _ entries
                    (not_found answer e q n m refl);
            }))
    | inr m ↦
        rw (n, finish)
          (rw (m, finish)
            (record {
              answer = stale_or-IsJustified asked p answer waiting (given q);
              entries = entries;
            }))
  ]
]

Step-Inv : (v w : World) → Inv v → Step v w → Inv w
unfolding invalidate reset
Step-Inv v _ inv (return_hit now service answer h) = record {
  entries = inv.entries;
  waiting = inv.waiting;
  returns = (subst (IsSound v.asked service) h (begin-IsSound v now service inv), inv.returns);
}
Step-Inv v _ inv (ask now service p h) = record {
  entries = inv.entries;
  waiting = (subst (IsSound v.asked service) h (begin-IsSound v now service inv), inv.waiting);
  returns = inv.returns;
}
Step-Inv v _ inv (return_answer earlier later p answer h) =
    let new : String × Answer = (p.service, answer) in
    let waiting = subst (All (IsWaiting v.asked)) h inv.waiting in
    let done =
      finish-IsFinished (new ∷ v.asked) v.resolver p answer
        (All-later _ _ _ (λ e j. IsJustified-later new j) inv.entries)
        (waiting_later new p
          (mem-All (IsWaiting v.asked) _ waiting (Memᴰ.append_right earlier (Memᴰ.head refl))))
        (Memᴰ.head refl) in
    record {
      entries = done.entries;
      waiting = All-later _ _ _ (waiting_later new) (
          All-of_mem _ (earlier ++ later)
            (λ a q. mem-All (IsWaiting v.asked) _ waiting (still earlier p later q)));
      returns = (done.answer, All-later _ _ _ (λ r j. IsJustified-later new j) inv.returns);
    }
  where
    waiting_later :
        (new : String × Answer) (p : Pending) → IsWaiting v.asked p → IsWaiting (new ∷ v.asked) p
    waiting_later new p k entry e = IsJustified-later new (k entry e)

    still :
        {a : Pending} (earlier : List Pending) (p : Pending) (later : List Pending)
        → Memᴰ a (earlier ++ later)
        → Memᴰ a (earlier ++ p ∷ later)
    still earlier p later q = elim (Memᴰ.append_cases earlier q) [
      | inl r ↦ Memᴰ.append_left (p ∷ later) r
      | inr r ↦ Memᴰ.append_right earlier (Memᴰ.tail r)
    ]
Step-Inv v _ inv (invalidates service) = record {
  entries = All-remove (IsEntry v.asked) v.resolver.entries service inv.entries;
  waiting = inv.waiting;
  returns = inv.returns;
}
Step-Inv v _ inv resets = record { entries = tt; waiting = inv.waiting; returns = inv.returns }

reachable-Inv : (opts : List CacheOption) (w : World) → IsReachable opts w → Inv w
reachable-Inv opts _ start = new-Inv opts
reachable-Inv opts w (next {v} h s) = Step-Inv v w (reachable-Inv opts v h) s

-- However calls of the cached resolver overlap with each other, with `Invalidate` and with `Reset`:
-- what a call returns for a service is what the inner resolver once answered for that service, or is
-- `ErrNotFound` where the inner resolver once failed for that service with that error.
pub returned-IsJustified :
    (opts : List CacheOption) (w : World) (service : String) (answer : Answer)
    → IsReachable opts w
    → Memᴰ (service, answer) w.returned
    → IsJustified w.asked service answer
returned-IsJustified opts w service answer h q =
    mem-All (IsReturn w.asked) w.returned (reachable-Inv opts w h).returns q
