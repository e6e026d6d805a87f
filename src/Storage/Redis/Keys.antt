-- ===== src/Storage/Redis/Keys.antt =====
-- redis.go: `redisDeploymentKey`, and the three kinds of key.
use Prim.Native.String.{[], ◌∷◌}
use text.Mathlib.TextLemmas.{append_assoc, append_cancel_left}
use cdevents_otel_bridge.Prelude.{String, true, ◌≡◌, ◌≢◌, sym, ap, ◌∙◌, ◌<>◌, arith, false_not_true}
use mathlib.Core.Path.{subst}
use cdevents_otel_bridge.Text.{has_prefix}
use cdevents_otel_bridge.Text.Separators.{HasNo, separated_inj, has_prefix-append}
use cdevents_otel_bridge.Storage.Redis.{
  escape_char, escape_key_part, redis_deployment_key, deployment_key_prefix, event_key_prefix,
  chain_key_prefix,
}
use cdevents_otel_bridge.Storage.Redis.Escaping.{
  escape_key_part-HasNo_colon, escape_key_part_inj, escape_key_part-append,
}

-- Names that share no key: no percent sign in any, and no colon in that of a service.
abbrev pub IsPlain : String → Type 0
IsPlain s = HasNo b'%' s × HasNo b':' s

-- Two pairs of a plain service and an environment without a percent sign have different keys.
pub redis_deployment_key_inj :
    (s t e f : String)
    → IsPlain s
    → IsPlain t
    → HasNo b'%' e
    → HasNo b'%' f
    → redis_deployment_key s e ≡ redis_deployment_key t f
    → (s ≡ t) × (e ≡ f)
unfolding redis_deployment_key
redis_deployment_key_inj s t e f h k x y p =
    let (same, rest) =
      separated_inj ":" (escape_key_part s) (escape_key_part t) (escape_key_part e)
        (escape_key_part f) (escape_key_part-HasNo_colon s h.1) (escape_key_part-HasNo_colon t k.1)
        (append_cancel_left deployment_key_prefix _ _ p) in
    (escape_key_part_inj s t h.0 k.0 same, escape_key_part_inj e f x y rest)

-- With a colon in a name, different pairs have one key.
pub redis_deployment_key_collision :
    (a b c : String)
    → redis_deployment_key (a <> ":" <> b) c ≡ redis_deployment_key a (b <> ":" <> c)
unfolding redis_deployment_key escape_key_part escape_char
redis_deployment_key_collision a b c =
    ap (λ x. deployment_key_prefix <> x)
      (ap (λ x. x <> ":" <> escape_key_part c)
          (escape_key_part-append a (":" <> b)
            ∙ ap (λ x. escape_key_part a <> x) (escape_key_part-append ":" b))
        ∙ append_assoc (escape_key_part a) (":" <> escape_key_part b) (":" <> escape_key_part c)
        ∙ ap (λ x. escape_key_part a <> x)
            (append_assoc ":" (escape_key_part b) (":" <> escape_key_part c))
        ∙ ap (λ x. escape_key_part a <> ":" <> x)
            (sym (
              escape_key_part-append b (":" <> c)
              ∙ ap (λ x. escape_key_part b <> x) (escape_key_part-append ":" c))))

-- The keys of a service stand behind what the scan for its latest deployment looks for.
pub redis_deployment_key-has_prefix :
    (service environment : String)
    → has_prefix
        (redis_deployment_key service environment)
        (deployment_key_prefix <> escape_key_part service <> ":")
      ≡ true
unfolding redis_deployment_key
redis_deployment_key-has_prefix service environment =
    let same : (deployment_key_prefix <> escape_key_part service <> ":")
          <> escape_key_part environment
        ≡ redis_deployment_key service environment =
      append_assoc deployment_key_prefix (escape_key_part service <> ":")
        (escape_key_part environment)
      ∙ ap (λ x. deployment_key_prefix <> x)
          (append_assoc (escape_key_part service) ":" (escape_key_part environment)) in
    subst (λ k. has_prefix k (deployment_key_prefix <> escape_key_part service <> ":") ≡ true) same
      (has_prefix-append _ (escape_key_part environment))

pub has_prefix-redis_deployment_key :
    (service environment : String)
    → has_prefix (redis_deployment_key service environment) deployment_key_prefix ≡ true
unfolding redis_deployment_key
has_prefix-redis_deployment_key service environment = has_prefix-append deployment_key_prefix _

-- Keys of different kinds are different.
deployment_not_event :
    (key : String)
    → has_prefix key deployment_key_prefix ≡ true
    → has_prefix key event_key_prefix ≡ true
    → ⊥
unfolding has_prefix
deployment_not_event [] h k = false_not_true h
deployment_not_event (c ∷ s) h k = ground arith

deployment_not_chain :
    (key : String)
    → has_prefix key deployment_key_prefix ≡ true
    → has_prefix key chain_key_prefix ≡ true
    → ⊥
unfolding has_prefix
deployment_not_chain [] h k = false_not_true h
deployment_not_chain (c ∷ s) h k = ground arith

event_not_chain :
    (key : String)
    → has_prefix key event_key_prefix ≡ true
    → has_prefix key chain_key_prefix ≡ true
    → ⊥
unfolding has_prefix
event_not_chain [] h k = false_not_true h
event_not_chain (c ∷ s) h k = ground arith

module _ (k j : String) where
  pub deployment_ne_event :
      has_prefix k deployment_key_prefix ≡ true → has_prefix j event_key_prefix ≡ true → k ≢ j
  deployment_ne_event h q same =
      deployment_not_event k h (subst (λ x. has_prefix x event_key_prefix ≡ true) (sym same) q)

  pub deployment_ne_chain :
      has_prefix k deployment_key_prefix ≡ true → has_prefix j chain_key_prefix ≡ true → k ≢ j
  deployment_ne_chain h q same =
      deployment_not_chain k h (subst (λ x. has_prefix x chain_key_prefix ≡ true) (sym same) q)

  pub event_ne_chain :
      has_prefix k event_key_prefix ≡ true → has_prefix j chain_key_prefix ≡ true → k ≢ j
  event_ne_chain h q same =
      event_not_chain k h (subst (λ x. has_prefix x chain_key_prefix ≡ true) (sym same) q)
