-- ===== src/Otelbridge/Client/Requests.antt =====
-- client.go: what names may do to the URL of a request.
use cdevents_otel_bridge.Prelude.{
  String, ◌≡◌, refl, sym, ap, ◌∙◌, ◌<>◌, is_empty, Bool-cases, inl, inr, arith, if◌then◌else◌,
}
use cdevents_otel_bridge.Text.Separators.{HasNo}
use text.Mathlib.TextLemmas.{append_assoc, append-nil}
use cdevents_otel_bridge.Url.{path_escape, query_escape, is_unreserved, is_segment_character}
use cdevents_otel_bridge.Url.Decoding.{
  bytes_of, path_bytes, query_bytes, path_bytes-path_escape, query_bytes-query_escape,
}
use cdevents_otel_bridge.Url.Laws.{
  HasNo-path_escape, HasNo-query_escape, IsUnreserved, path_escape_unreserved,
  query_escape_unreserved,
}
use cdevents_otel_bridge.Otelbridge.Client.{Client, endpoint}

-- A path segment: no slash, and no character at which the path ends.
abbrev pub IsSegment : String → Type 0
IsSegment s = HasNo b'/' s × HasNo b'?' s × HasNo b'#' s

-- The value of a query: no character at which it ends, and none at which a name and a value part.
abbrev pub IsQueryValue : String → Type 0
IsQueryValue s = HasNo b'&' s × HasNo b'=' s × HasNo b'#' s

endpoint_lem :
    (c : Client) (service environment : String)
    → endpoint c service environment
      ≡ c.base_url
        <> "/api/v1/deployments/"
        <> path_escape service
        <> (if is_empty environment then "" else "?environment=" <> query_escape environment)
unfolding endpoint
endpoint_lem c service environment = elim (Bool-cases (is_empty environment)) [
  | inl e ↦
      rw (endpoint, e)
        (sym
          (ap (λ x. c.base_url <> "/api/v1/deployments/" <> x) (append-nil (path_escape service))))
  | inr e ↦
      rw (endpoint, e)
        (append_assoc c.base_url ("/api/v1/deployments/" <> path_escape service)
            ("?environment=" <> query_escape environment)
          ∙ ap (λ x. c.base_url <> x)
              (append_assoc "/api/v1/deployments/" (path_escape service)
                ("?environment=" <> query_escape environment)))
]

-- The URL of a deployment on the bridge, where its names are made of letters, digits, hyphens, dots,
-- underscores and tildes.
abbrev pub address : String → String → String → String
address base_url service environment =
    base_url
    <> "/api/v1/deployments/"
    <> service
    <> (if is_empty environment then "" else "?environment=" <> environment)

pub endpoint-address :
    (c : Client) (service environment : String)
    → IsUnreserved service
    → IsUnreserved environment
    → endpoint c service environment ≡ address c.base_url service environment
endpoint-address c service environment h k =
    rw
      (
        endpoint_lem c service environment,
        path_escape_unreserved service h,
        query_escape_unreserved environment k,
      )
      refl

-- A service and an environment, whatever their texts are, are one path segment and one value of the
-- query in the URL of a request, and what these two say, once unescaped by the rules of a path and
-- of a query, are the bytes of the service and of the environment. Without an environment there is
-- no query.
pub endpoint_parts :
    (c : Client) (service environment : String)
    → (segment : String) × (query : String) × (endpoint c service environment
        ≡ c.base_url
          <> "/api/v1/deployments/"
          <> segment
          <> (if is_empty environment then "" else "?environment=" <> query))
      × IsSegment segment
      × IsQueryValue query
      × (path_bytes segment ≡ bytes_of service)
      × (query_bytes query ≡ bytes_of environment)
unfolding is_unreserved is_segment_character
endpoint_parts c service environment = (
  path_escape service,
  query_escape environment,
  endpoint_lem c service environment,
  (
    HasNo-path_escape b'/' (ground arith) refl service,
    HasNo-path_escape b'?' (ground arith) refl service,
    HasNo-path_escape b'#' (ground arith) refl service,
  ),
  (
    HasNo-query_escape b'&' (ground arith) refl environment,
    HasNo-query_escape b'=' (ground arith) refl environment,
    HasNo-query_escape b'#' (ground arith) refl environment,
  ),
  path_bytes-path_escape service,
  query_bytes-query_escape environment,
)
