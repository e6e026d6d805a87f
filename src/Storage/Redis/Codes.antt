-- ===== src/Storage/Redis/Codes.antt =====
-- Encoders of a few records, at which the theorems on redis.go are applied.
use Prim.Native.String.{[], ◌∷◌}
use mathlib.Core.List.{[], ◌∷◌}
use cdevents_otel_bridge.Prelude.{
  ℕ, zero, suc, String, Bool, true, false, List, none, some, ◌==◌, ◌&&◌, eqb, if◌then◌else◌,
}
use cdevents_otel_bridge.Errors.{ok, err, plain}
use cdevents_otel_bridge.Models.{Deployment, Link}
use cdevents_otel_bridge.Models.Json.{Map}
use cdevents_otel_bridge.Cdevents.{StoredEvent}
use cdevents_otel_bridge.Storage.Redis.{Codec}

-- Encoders of two records, told apart by a test.
module _ {A : Type 0} (same : A → A → Bool) (one two : A) where
  abbrev pub two_records : Codec A
  two_records = record {
    marshal =
        λ a. if same a one then ok "1" else if same a two then ok "2" else err (plain "no code");
    unmarshal =
        λ t. if t == "1" then ok one else if t == "2" then ok two else err (plain "no text");
  }

unfoldable pub same_texts : List String → List String → Bool
same_texts [] [] = true
same_texts [] (y ∷ ys) = false
same_texts (x ∷ xs) [] = false
same_texts (x ∷ xs) (y ∷ ys) = let rest = same_texts xs ys in if x == y then rest else false

abbrev pub at : ℕ → List String → String
at n [] = ""
at zero (x ∷ xs) = x
at (suc n) (x ∷ xs) = at n xs

-- Deployments and events without links and raw data, by their texts and their time.
abbrev pub deployment_texts : Deployment → List String
deployment_texts d =
    d.id ∷ d.service ∷ d.version ∷ d.environment ∷ d.commit_sha ∷ d.repository ∷ d.branch ∷ d.author
    ∷ d.pipeline_id ∷ d.pipeline_url ∷ d.deployed_by ∷ d.event_id ∷ d.chain_id ∷ []

abbrev pub deployment_from : List String → ℕ → Deployment
deployment_from ts deployed_at = record {
  id = at 0 ts;
  service = at 1 ts;
  version = at 2 ts;
  environment = at 3 ts;
  commit_sha = at 4 ts;
  repository = at 5 ts;
  branch = at 6 ts;
  author = at 7 ts;
  pipeline_id = at 8 ts;
  pipeline_url = at 9 ts;
  deployed_at = deployed_at;
  deployed_by = at 10 ts;
  event_id = at 11 ts;
  chain_id = at 12 ts;
  links = [];
}

abbrev pub event_texts : StoredEvent → List String
event_texts e =
    e.id ∷ e.type ∷ e.source ∷ e.subject_id ∷ e.subject_type ∷ e.chain_id ∷ e.summary ∷ []

abbrev pub event_from : List String → ℕ → StoredEvent
event_from ts timestamp = record {
  id = at 0 ts;
  type = at 1 ts;
  source = at 2 ts;
  timestamp = timestamp;
  subject_id = at 3 ts;
  subject_type = at 4 ts;
  chain_id = at 5 ts;
  links = [];
  summary = at 6 ts;
  raw_data = none;
}

abbrev pub no_links : List Link → Bool
no_links [] = true
no_links (l ∷ ls) = false

abbrev pub no_map : Map → Bool
no_map none = true
no_map (some fields) = false

abbrev pub same_deployment : Deployment → Deployment → Bool
same_deployment a b =
    same_texts (deployment_texts a) (deployment_texts b)
    && (eqb a.deployed_at b.deployed_at && (no_links a.links && no_links b.links))

abbrev pub same_event : StoredEvent → StoredEvent → Bool
same_event a b =
    same_texts (event_texts a) (event_texts b)
    && (eqb a.timestamp b.timestamp
        && ((no_links a.links && no_map a.raw_data) && (no_links b.links && no_map b.raw_data)))
