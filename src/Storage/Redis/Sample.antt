-- ===== src/Storage/Redis/Sample.antt =====
-- A server in memory, at which the theorems on redis.go are applied.
use Prim.Native.String.{[], ◌∷◌}
use mathlib.Core.List.{[], ◌∷◌}
use text.Mathlib.TextLemmas.{cons-append}
use cdevents_otel_bridge.Prelude.{
  ◌≤◌, String, Bool, true, false, List, map, Option, none, some, ◌≡◌, refl, sym, ◌∙◌, ap, ◌<>◌,
  ◌==◌, inl, inr, Memᴰ, keep, mem-keep, eq_iff, arith, Bool-cases, if◌then◌else◌, none_not_some,
  eq_refl, Memᴰ-cons,
}
use cdevents_otel_bridge.Errors.{ok}
use cdevents_otel_bridge.Text.{has_prefix}
use cdevents_otel_bridge.Dict
use cdevents_otel_bridge.Dict.{Dict}
use cdevents_otel_bridge.Dict.Laws.{get-put}
use cdevents_otel_bridge.Storage.Redis.Invariant.{IsNew}
use cdevents_otel_bridge.Storage.Redis.Scanning.{pages}
use cdevents_otel_bridge.Storage.Redis.{Command, set, s_add, expire, Client}
use cdevents_otel_bridge.Storage.Redis.Server.{Server, IsReached, last, after_all}

pub record Sample : Type 0 where
  pub texts : Dict String
  pub sets : Dict (List String)

abbrev pub members_of : Option (List String) → List String
members_of none = []
members_of (some ms) = ms

abbrev pub set_at : Sample → String → List String
set_at s key = members_of (Dict.get s.sets key)

abbrev pub step : Sample → Command → Sample
step s (set key t ttl) = record { texts = Dict.put s.texts key t; sets = Dict.put s.sets key [] }
step s (s_add key m) = record s { sets = Dict.put s.sets key (m ∷ set_at s key) }
step s (expire key ttl) = s

unfoldable pub without_star : String → String
without_star [] = []
without_star (c ∷ []) = []
without_star (c ∷ d ∷ s) = c ∷ without_star (d ∷ s)

without_star-append : (s : String) → without_star (s <> "*") ≡ s
unfolding without_star
without_star-append [] = refl
without_star-append (c ∷ []) = rw cons-append refl
without_star-append (c ∷ d ∷ s) =
    let ih : without_star (d ∷ (s <> "*")) ≡ d ∷ s =
      rw cons-append at (without_star-append (d ∷ s)) in
    rw (cons-append, cons-append, ih) refl

abbrev pub keys_behind : Sample → String → List String
keys_behind s pattern = keep (λ k. has_prefix k (without_star pattern)) (map (λ e. e.0) s.texts)

abbrev pub sample_client : Client Sample
sample_client = record {
  get = λ s ctx key. ok (Dict.get s.texts key);
  s_members = λ s ctx key. ok (set_at s key);
  scan = λ s ctx cursor pattern count. ok (keys_behind s pattern, 0);
  run = λ s ctx c. (ok tt, step s c);
  exec = λ s ctx cs. (ok tt, after_all step s cs);
  ping = λ s ctx. none;
  close = λ s. none;
}

mem-of_get :
    (m : Dict String) (key t : String) → Dict.get m key ≡ some t → Memᴰ key (map (λ e. e.0) m)
unfolding Dict.get
mem-of_get [] key t h = absurd (none_not_some h)
mem-of_get ((j, u) ∷ m) key t h = elim (Bool-cases (j == key)) [
  | inl e ↦ Memᴰ.head (sym ((eq_iff j key).0 e))
  | inr e ↦ Memᴰ.tail (mem-of_get m key t (rw e at h))
]

at_if :
    (b : Bool) (o : Option (List String))
    → members_of (if b then some [] else o) ≡ (if b then [] else members_of o)
at_if true o = refl
at_if false o = refl

pub sample_server : Server sample_client
sample_server = record {
  text = λ s key. Dict.get s.texts key;
  members = set_at;
  after = step;
  get-text = λ s key t e. ap ok e;
  get-missing = λ s key e _. ap ok e;
  s_members-members = λ s key e. refl;
  text-set = λ s key t j ttl. get-put s.texts key t j;
  members-set = λ s key t j ttl. ap members_of (get-put s.sets key [] j) ∙ at_if (key == j) _;
  text-s_add = λ s key m j. refl;
  members-s_add_other = λ s key m j h.
      let other : (key == j) ≡ false = ground (arith, eq_iff key j, h) in
      let kept : Dict.get (Dict.put s.sets key (m ∷ set_at s key)) j ≡ Dict.get s.sets j =
        get-put s.sets key (m ∷ set_at s key) j ∙ rw other refl in
      ap members_of kept;
  members-s_add = λ s key m x h.
      let added : Dict.get (Dict.put s.sets key (m ∷ set_at s key)) key ≡ some (m ∷ set_at s key) =
        get-put s.sets key (m ∷ set_at s key) key ∙ rw (eq_refl key) refl in
      let here : set_at (step s (s_add key m)) key ≡ m ∷ set_at s key = ap members_of added in
      rw here (Memᴰ-cons x m (set_at s key));
  text-expire = λ s key j ttl h. refl;
  members-expire = λ s key j ttl h. refl;
  scanned = keys_behind;
  scan-iterates = λ s pattern. last refl;
  scan-complete = λ s prefix key t literal h e.
      (mem-keep (λ k. has_prefix k (without_star (prefix <> "*"))) key _).1
        (mem-of_get s.texts key t e, rw (without_star-append prefix) h);
  scan-sound = λ s prefix key literal q.
      rw (without_star-append prefix) at
        ((mem-keep (λ k. has_prefix k (without_star (prefix <> "*"))) key _).0 q).1;
}

pub sample-IsReached : IsReached sample_client sample_server
unfolding sample_server
sample-IsReached = record { run-after = λ s c h. refl; exec-after = λ s cs h. refl }

-- The server at its start, and the pages of its scans.
abbrev pub new_sample : Sample
new_sample = record { texts = []; sets = [] }

pub new_sample-IsNew : IsNew sample_client sample_server new_sample
unfolding sample_server Dict.get
new_sample-IsNew key = (refl, refl)

pub sample_pages :
    (s : Sample) (pattern : String) → pages (sample_server.scan-iterates s pattern) ≤ 1
unfolding sample_server
sample_pages s pattern = omega arith
