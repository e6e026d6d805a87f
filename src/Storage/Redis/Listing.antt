-- ===== src/Storage/Redis/Listing.antt =====
-- redis.go: what `GetLatestDeployment` and `ListDeployments` return on a valid server.
use mathlib.Core.Path.{subst}
use text.Mathlib.TextLemmas.{append_assoc}
use cdevents_otel_bridge.Prelude.{
  ℕ, ◌≤◌, String, List, some, true, ◌≡◌, refl, sym, ◌∙◌, ap, ◌<>◌, ◌↔◌, ◌⊎◌, inl, inr, Memᴰ,
  All-of_mem, Option-cases, ◌==◌, keep,
}
use cdevents_otel_bridge.Errors.{Result, ok, err, not_found, ok_inj, err_not_ok}
use cdevents_otel_bridge.Text.{has_prefix}
use cdevents_otel_bridge.Text.Separators.{has_prefix-of_append}
use cdevents_otel_bridge.Models.{Deployment}
use cdevents_otel_bridge.Cdevents.{StoredEvent}
use cdevents_otel_bridge.Storage.{ListFilter, apply_filter, latest_deployment}
use cdevents_otel_bridge.Storage.Filter.{IsListing, apply_filter-IsListing}
use cdevents_otel_bridge.Storage.Latest.{IsLatestOf, latest_deployment-IsLatestOf}
use cdevents_otel_bridge.Storage.Memory.Lookups.{live}
use cdevents_otel_bridge.Storage.Redis.{
  Client, Codec, RedisStorage, read_deployment, decoded, scan_deployments, get_latest_deployment,
  list_deployments, redis_deployment_key, deployment_key_prefix, escape_key_part, escape_char,
  after,
}
use cdevents_otel_bridge.Storage.Redis.Server.{Server, IsLiteral}
use cdevents_otel_bridge.Storage.Redis.Escaping.{escape_key_part-IsLiteral, IsLiteral-append}
use cdevents_otel_bridge.Storage.Redis.Keys.{
  redis_deployment_key-has_prefix, has_prefix-redis_deployment_key,
}
use cdevents_otel_bridge.Storage.Redis.Invariant.{IsValid}
use cdevents_otel_bridge.Storage.Redis.Scanning.{
  IsRead, finds, collect-finds, pages, scan_from-collect,
}

deployment_key_prefix-IsLiteral : IsLiteral deployment_key_prefix
unfolding escape_char
deployment_key_prefix-IsLiteral =
    (refl, (refl, (refl, (refl, (refl, (refl, (refl, (refl, (refl, (refl, (refl, tt)))))))))))

colon-IsLiteral : IsLiteral ":"
unfolding escape_char
colon-IsLiteral = (refl, tt)

pattern_joined :
    (service : String)
    → deployment_key_prefix <> escape_key_part service <> ":*"
      ≡ (deployment_key_prefix <> escape_key_part service <> ":") <> "*"
pattern_joined service = sym (
    append_assoc deployment_key_prefix (escape_key_part service <> ":") "*"
    ∙ ap (λ x. deployment_key_prefix <> x) (append_assoc (escape_key_part service) ":" "*"))

module _ {S : Type 0} (client : Client S) (server : Server client) (deployments : Codec Deployment)
    (events : Codec StoredEvent) (r : RedisStorage S) where
  abbrev pub key_of : Deployment → String
  key_of d = redis_deployment_key d.service d.environment

  -- A deployment stands under its key.
  abbrev pub IsStored : Deployment → Type 0
  IsStored d =
      (t : String) × (server.text r.server (key_of d) ≡ some t) × (deployments.unmarshal t ≡ ok d)

  module _ (v : IsValid client server deployments events r.server) where
    pub read_stored :
        (d : Deployment) → IsStored d → read_deployment client deployments r live (key_of d) ≡ ok d
    unfolding read_deployment decoded
    read_stored d (t, p, q) = rw (server.get-text r.server (key_of d) t p, q) refl

    module _ (key : String) (kind : has_prefix key deployment_key_prefix ≡ true) where
      read_finds :
          (read_deployment client deployments r live key ≡ err not_found)
          ⊎ ((d : Deployment) × (read_deployment client deployments r live key ≡ ok d)
              × IsStored d
              × (key_of d ≡ key))
      unfolding read_deployment decoded
      read_finds =
          let (no_set, holds) = v.deployments_keyed key kind in
          elim (Option-cases (server.text r.server key)) [
            | inl e ↦ inl (rw (server.get-missing r.server key e no_set) refl)
            | inr (t, e) ↦
                let (d, coded, keyed) = holds t e in
                inr (
                  d,
                  rw (server.get-text r.server key t e, coded) refl,
                  (t, ap (server.text r.server) keyed ∙ e, coded),
                  keyed,
                )
          ]

      deployment-IsRead : IsRead (read_deployment client deployments r live key)
      deployment-IsRead = elim read_finds [ inl e ↦ inr e | inr (d, e, _, _) ↦ inl (d, e) ]

      pub read-IsStored :
          (d : Deployment)
          → read_deployment client deployments r live key ≡ ok d
          → IsStored d × (key_of d ≡ key)
      read-IsStored d e = elim read_finds [
        | inl f ↦ absurd (err_not_ok (sym f ∙ e))
        | inr (d', f, stored, keyed) ↦
            subst (λ x. IsStored x × (key_of x ≡ key)) (ok_inj (sym f ∙ e)) (stored, keyed)
      ]

    module _ (fuel : ℕ) (prefix : String) (literal : IsLiteral prefix)
        (within : (key : String)
          → has_prefix key prefix ≡ true
          → has_prefix key deployment_key_prefix ≡ true)
        (enough : pages (server.scan-iterates r.server (prefix <> "*")) ≤ fuel) where
      -- A scan behind a prefix returns exactly the stored deployments whose keys have the prefix.
      scan_deployments_exact :
          (ds : List Deployment) × (scan_deployments client deployments fuel r live (prefix <> "*")
            ≡ some (ok ds))
          × (ds
              ≡ finds
                  (read_deployment client deployments r live)
                  (server.scanned r.server (prefix <> "*")))
          × ((d : Deployment) → Memᴰ d ds ↔ (IsStored d × (has_prefix (key_of d) prefix ≡ true)))
      unfolding scan_deployments
      scan_deployments_exact =
          let keys = server.scanned r.server (prefix <> "*") in
          let (ds, p, same, exact) =
            collect-finds (read_deployment client deployments r live) keys (
              All-of_mem (λ key. IsRead (read_deployment client deployments r live key)) keys
                (λ key q.
                  deployment-IsRead key
                    (within key (server.scan-sound r.server prefix key literal q)))) in
          (
            ds,
            scan_from-collect client deployments r (prefix <> "*") fuel 0 keys
                  (server.scan-iterates r.server (prefix <> "*")) enough
                ∙ ap some p,
            same,
            λ d. (
              λ q.
                  let (key, m, e) = (exact d).0 q in
                  let prefixed = server.scan-sound r.server prefix key literal m in
                  let (stored, keyed) = read-IsStored key (within key prefixed) d e in
                  (stored, subst (λ k. has_prefix k prefix ≡ true) (sym keyed) prefixed),
              λ (stored, prefixed). (exact d).1 (
                key_of d,
                server.scan-complete r.server prefix (key_of d) stored.0 literal prefixed stored.1,
                read_stored d stored,
              ),
            ),
          )

    -- What the scan for a service finds.
    pub latest_scanned :
        (fuel : ℕ) (service : String)
        → pages (
            server.scan-iterates r.server
              ((deployment_key_prefix <> escape_key_part service <> ":") <> "*"))
          ≤ fuel
        → (ds : List Deployment) × (get_latest_deployment client deployments fuel r live service
            ≡ some (latest_deployment (keep (λ d. d.service == service) ds)))
          × ((d : Deployment) → Memᴰ d ds → IsStored d)
          × ((d : Deployment) → IsStored d → d.service ≡ service → Memᴰ d ds)
    unfolding get_latest_deployment
    latest_scanned fuel service enough =
        let prefix = deployment_key_prefix <> escape_key_part service <> ":" in
        let (ds, p, _, exact) =
          scan_deployments_exact fuel prefix
            (IsLiteral-append deployment_key_prefix _ deployment_key_prefix-IsLiteral (
              IsLiteral-append (escape_key_part service) ":" (escape_key_part-IsLiteral service)
                colon-IsLiteral))
            (λ key h. has_prefix-of_append key deployment_key_prefix _ h) enough in
        (
          ds,
          ap (after (λ ds. latest_deployment (keep (λ d. d.service == service) ds)))
              (ap (scan_deployments client deployments fuel r live) (pattern_joined service) ∙ p),
          λ d q. ((exact d).0 q).0,
          λ d stored same. (exact d).1 (
            stored,
            subst
                (λ s.
                  has_prefix (redis_deployment_key d.service d.environment)
                    (deployment_key_prefix <> escape_key_part s <> ":")
                  ≡ true)
                same (redis_deployment_key-has_prefix d.service d.environment),
          ),
        )

    -- On a reached server whose keys hold what the backend writes, with fuel for the pages of the
    -- scan, `GetLatestDeployment` returns a stored deployment of the service that no other of the
    -- service is later than, and `ErrNotFound` exactly where the service has none.
    pub get_latest_deployment-IsLatestOf :
        (fuel : ℕ) (service : String)
        → pages (
            server.scan-iterates r.server
              ((deployment_key_prefix <> escape_key_part service <> ":") <> "*"))
          ≤ fuel
        → (result : Result Deployment) × (get_latest_deployment client deployments fuel r live
              service
            ≡ some result)
          × IsLatestOf IsStored service result
    get_latest_deployment-IsLatestOf fuel service enough =
        let (ds, p, sound, complete) = latest_scanned fuel service enough in
        (_, p, latest_deployment-IsLatestOf IsStored service ds sound complete)

    -- On a reached server whose keys hold what the backend writes, with fuel for the pages of the
    -- scan, `ListDeployments` returns what `applyFilter` promises of the deployments under the keys
    -- that the scan returns. These are the stored deployments, and each is there once for each time
    -- that the scan returns its key, which is once or more.
    pub list_deployments_exact :
        (fuel : ℕ) (f : ListFilter)
        → pages (server.scan-iterates r.server (deployment_key_prefix <> "*")) ≤ fuel
        → (ds : List Deployment) × (result : List Deployment) × (list_deployments client deployments
              fuel r live f
            ≡ some (ok result))
          × (ds
              ≡ finds
                  (read_deployment client deployments r live)
                  (server.scanned r.server (deployment_key_prefix <> "*")))
          × ((d : Deployment) → Memᴰ d ds ↔ IsStored d)
          × IsListing ds f result
    unfolding list_deployments
    list_deployments_exact fuel f enough =
        let (ds, p, same, exact) =
          scan_deployments_exact fuel deployment_key_prefix deployment_key_prefix-IsLiteral
            (λ key h. h) enough in
        (
          ds,
          apply_filter ds f,
          ap (after (λ ds. ok (apply_filter ds f))) p,
          same,
          λ d. (
            λ q. ((exact d).0 q).0,
            λ stored. (exact d).1 (stored, has_prefix-redis_deployment_key d.service d.environment),
          ),
          apply_filter-IsListing ds f,
        )
