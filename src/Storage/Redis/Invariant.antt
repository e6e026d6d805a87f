-- ===== src/Storage/Redis/Invariant.antt =====
-- redis.go: what the keys of a server hold that only this backend writes to.
use mathlib.Core.Path.{subst}
use cdevents_otel_bridge.Prelude.{
  String, [], none, some, true, ◌≡◌, ◌≢◌, refl, sym, ◌∙◌, ◌==◌, ◌<>◌, eq_iff, Bool-cases, inl, inr,
  some_inj, none_not_some,
}
use cdevents_otel_bridge.Prelude.Int.{ℤ, pos, ltb_ℤ}
use cdevents_otel_bridge.Errors.{ok}
use cdevents_otel_bridge.Text.{has_prefix}
use cdevents_otel_bridge.Text.Separators.{has_prefix-append}
use cdevents_otel_bridge.Models.{Deployment}
use cdevents_otel_bridge.Cdevents.{StoredEvent}
use cdevents_otel_bridge.Storage.Redis.{
  set, s_add, expire, Client, Codec, redis_deployment_key, deployment_key_prefix, event_key_prefix,
  chain_key_prefix,
}
use cdevents_otel_bridge.Storage.Redis.Server.{Server}
use cdevents_otel_bridge.Storage.Redis.Keys.{
  has_prefix-redis_deployment_key, deployment_ne_event, deployment_ne_chain, event_ne_chain,
}

module _ {S : Type 0} (client : Client S) (server : Server client) where
  module _ (s : S) (key t : String) (ttl : ℤ) where
    pub text-set_here : server.text (server.after s (set key t ttl)) key ≡ some t
    text-set_here = rw (server.text-set, (eq_iff key key).1 refl) refl

    pub members-set_here : server.members (server.after s (set key t ttl)) key ≡ []
    members-set_here = rw (server.members-set, (eq_iff key key).1 refl) refl

    pub text-set_other :
        (j : String) → key ≢ j → server.text (server.after s (set key t ttl)) j ≡ server.text s j
    text-set_other j h = elim (Bool-cases (key == j)) [
      | inl e ↦ absurd (h ((eq_iff key j).0 e))
      | inr e ↦ rw (server.text-set, e) refl
    ]

    pub members-set_other :
        (j : String)
        → key ≢ j
        → server.members (server.after s (set key t ttl)) j ≡ server.members s j
    members-set_other j h = elim (Bool-cases (key == j)) [
      | inl e ↦ absurd (h ((eq_iff key j).0 e))
      | inr e ↦ rw (server.members-set, e) refl
    ]

  -- A key holds no set, and where it holds a text, that is of a record that stands under this key.
  abbrev pub HoldsOnly : {A : Type 0} → Codec A → (A → String) → S → String → Type 0
  HoldsOnly {A} codec key_of s key =
      (server.members s key ≡ [])
      × ((t : String)
          → server.text s key ≡ some t
          → (a : A) × (codec.unmarshal t ≡ ok a) × (key_of a ≡ key))

  HoldsOnly-same :
      {A : Type 0} (codec : Codec A) (key_of : A → String) (s s' : S) (key : String)
      → server.text s' key ≡ server.text s key
      → server.members s' key ≡ server.members s key
      → HoldsOnly codec key_of s key
      → HoldsOnly codec key_of s' key
  HoldsOnly-same codec key_of s s' key p q h = (q ∙ h.0, λ t e. h.1 t (sym p ∙ e))

  HoldsOnly-set :
      {A : Type 0} (codec : Codec A) (key_of : A → String) (s : S) (key t j : String) (ttl : ℤ)
      → ((a : A) × (codec.unmarshal t ≡ ok a) × (key_of a ≡ key))
      → HoldsOnly codec key_of s j
      → HoldsOnly codec key_of (server.after s (set key t ttl)) j
  HoldsOnly-set {A} codec key_of s key t j ttl record_of h = elim (Bool-cases (key == j)) [
    | inl e ↦
        let same : key ≡ j = (eq_iff key j).0 e in
        subst (HoldsOnly codec key_of (server.after s (set key t ttl))) same (
          members-set_here s key t ttl,
          λ u p.
              subst (λ x. (a : A) × (codec.unmarshal x ≡ ok a) × (key_of a ≡ key))
                (some_inj (sym (text-set_here s key t ttl) ∙ p)) record_of,
        )
    | inr e ↦
        HoldsOnly-same codec key_of s _ j (rw (server.text-set, e) refl)
          (rw (server.members-set, e) refl) h
  ]

  -- A server that holds nothing.
  abbrev pub IsNew : S → Type 0
  IsNew s = (key : String) → (server.text s key ≡ none) × (server.members s key ≡ [])

  module _ (deployments : Codec Deployment) (events : Codec StoredEvent) where
    abbrev pub key_of_deployment : Deployment → String
    key_of_deployment d = redis_deployment_key d.service d.environment

    abbrev pub key_of_event : StoredEvent → String
    key_of_event e = event_key_prefix <> e.id

    pub record IsValid (s : S) : Type 0 where
      pub deployments_keyed :
          (key : String)
          → has_prefix key deployment_key_prefix ≡ true
          → HoldsOnly deployments key_of_deployment s key
      pub events_keyed :
          (key : String)
          → has_prefix key event_key_prefix ≡ true
          → HoldsOnly events key_of_event s key
      pub chains_are_sets :
          (key : String) → has_prefix key chain_key_prefix ≡ true → server.text s key ≡ none

    pub new-IsValid : (s : S) → IsNew s → IsValid s
    new-IsValid s h = record {
      deployments_keyed = λ key _. ((h key).1, λ t e. absurd (none_not_some (sym (h key).0 ∙ e)));
      events_keyed = λ key _. ((h key).1, λ t e. absurd (none_not_some (sym (h key).0 ∙ e)));
      chains_are_sets = λ key _. (h key).0;
    }

    pub set_deployment-IsValid :
        (s : S) (d : Deployment) (t : String) (ttl : ℤ)
        → deployments.unmarshal t ≡ ok d
        → IsValid s
        → IsValid (server.after s (set (key_of_deployment d) t ttl))
    set_deployment-IsValid s d t ttl p v =
        let key = key_of_deployment d in
        let kind = has_prefix-redis_deployment_key d.service d.environment in
        record {
          deployments_keyed = λ j h.
              HoldsOnly-set deployments key_of_deployment s key t j ttl (d, p, refl)
                (v.deployments_keyed j h);
          events_keyed = λ j h.
              let other : key ≢ j = deployment_ne_event key j kind h in
              HoldsOnly-same events key_of_event s _ j (text-set_other s key t ttl j other)
                (members-set_other s key t ttl j other) (v.events_keyed j h);
          chains_are_sets = λ j h.
              text-set_other s key t ttl j (deployment_ne_chain key j kind h)
              ∙ v.chains_are_sets j h;
        }

    pub set_event-IsValid :
        (s : S) (e : StoredEvent) (t : String) (ttl : ℤ)
        → events.unmarshal t ≡ ok e
        → IsValid s
        → IsValid (server.after s (set (key_of_event e) t ttl))
    set_event-IsValid s e t ttl p v =
        let key = key_of_event e in
        let kind = has_prefix-append event_key_prefix e.id in
        record {
          deployments_keyed = λ j h.
              let other : key ≢ j = λ same. deployment_ne_event j key h kind (sym same) in
              HoldsOnly-same deployments key_of_deployment s _ j
                (text-set_other s key t ttl j other) (members-set_other s key t ttl j other)
                (v.deployments_keyed j h);
          events_keyed = λ j h.
              HoldsOnly-set events key_of_event s key t j ttl (e, p, refl) (v.events_keyed j h);
          chains_are_sets = λ j h.
              text-set_other s key t ttl j (event_ne_chain key j kind h) ∙ v.chains_are_sets j h;
        }

    pub s_add-IsValid :
        (s : S) (chain_id m : String)
        → IsValid s
        → IsValid (server.after s (s_add (chain_key_prefix <> chain_id) m))
    s_add-IsValid s chain_id m v =
        let key = chain_key_prefix <> chain_id in
        let kind = has_prefix-append chain_key_prefix chain_id in
        record {
          deployments_keyed = λ j h.
              HoldsOnly-same deployments key_of_deployment s _ j (server.text-s_add s key m j)
                (server.members-s_add_other s key m j
                  (λ same. deployment_ne_chain j key h kind (sym same)))
                (v.deployments_keyed j h);
          events_keyed = λ j h.
              HoldsOnly-same events key_of_event s _ j (server.text-s_add s key m j)
                (server.members-s_add_other s key m j
                  (λ same. event_ne_chain j key h kind (sym same)))
                (v.events_keyed j h);
          chains_are_sets = λ j h. server.text-s_add s key m j ∙ v.chains_are_sets j h;
        }

    pub expire-IsValid :
        (s : S) (key : String) (ttl : ℤ)
        → ltb_ℤ (pos 0) ttl ≡ true
        → IsValid s
        → IsValid (server.after s (expire key ttl))
    expire-IsValid s key ttl p v = record {
      deployments_keyed = λ j h.
          HoldsOnly-same deployments key_of_deployment s _ j (server.text-expire s key j ttl p)
            (server.members-expire s key j ttl p) (v.deployments_keyed j h);
      events_keyed = λ j h.
          HoldsOnly-same events key_of_event s _ j (server.text-expire s key j ttl p)
            (server.members-expire s key j ttl p) (v.events_keyed j h);
      chains_are_sets = λ j h. server.text-expire s key j ttl p ∙ v.chains_are_sets j h;
    }
