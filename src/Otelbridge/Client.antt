-- ===== src/Otelbridge/Client.antt =====
-- client.go: the HTTP client of the bridge's query API. The HTTP library and the JSON decoder are
-- parameters.
pub mod Options
pub mod Requests
pub mod Bridge
pub mod Stored
mod Tests
use mathlib.Core.List.{[], ◌∷◌}
use Prim.Native.Char.{code}
use Prim.Native.String.{[], ◌∷◌}
use cdevents_otel_bridge.Prelude.{
  ℕ, ◌+◌, ◌*◌, ◌^◌, String, List, Bool, true, false, ◌&&◌, Option, none, some, ◌<>◌, is_empty,
  length, take, ltb, eqb, if◌then◌else◌,
}
use cdevents_otel_bridge.Prelude.Int.{ℤ, pos, ltb_ℤ}
use cdevents_otel_bridge.Errors.{Error, Result, ok, err, plain, wrap, resolver_not_found}
use cdevents_otel_bridge.Time.{second}
use cdevents_otel_bridge.Text.{trim_space}
use cdevents_otel_bridge.Strconv.{decimal}
use cdevents_otel_bridge.Url.{path_escape, query_escape}
use cdevents_otel_bridge.Models.{Deployment}
use cdevents_otel_bridge.Storage.{Context}
use cdevents_otel_bridge.Otelbridge.{Answer, failure}

abbrev pub default_request_timeout : ℤ
default_request_timeout = pos (2 * second)

abbrev pub max_response_bytes : ℕ
max_response_bytes = 2 ^ 20

-- The `http.Client` values of the program: their timeouts, by address, and the next free address.
-- A client that the caller passes in is shared with the caller.
pub record HttpClients : Type 0 where
  pub timeout : ℕ → ℤ
  pub next : ℕ

pub record Client : Type 0 where
  pub base_url : String
  pub environment : String
  -- the address of `httpClient`
  pub http_client : ℕ

pub data ClientOption : Type 0 where
  with_http_client : Option ℕ → ClientOption
  with_environment : String → ClientOption
  with_request_timeout : ℤ → ClientOption

abbrev pub set_timeout : HttpClients → ℕ → ℤ → HttpClients
set_timeout clients address timeout = record clients {
  timeout = λ a. if eqb a address then timeout else clients.timeout a;
}

unfoldable pub apply_option : ClientOption → Client × HttpClients → Client × HttpClients
apply_option (with_http_client none) (c, clients) = (c, clients)
apply_option (with_http_client (some address)) (c, clients) =
    (record c { http_client = address }, clients)
apply_option (with_environment environment) (c, clients) =
    (record c { environment = environment }, clients)
apply_option (with_request_timeout timeout) (c, clients) =
    if ltb_ℤ (pos 0) timeout then (c, set_timeout clients c.http_client timeout) else (c, clients)

unfoldable pub apply_options : List ClientOption → Client × HttpClients → Client × HttpClients
unfolding apply_option
apply_options [] s = s
apply_options (opt ∷ opts) s = apply_options opts (apply_option opt s)

-- strings.TrimRight(s, "/")
unfoldable pub trim_slashes : String → String
trim_slashes [] = ""
trim_slashes (c ∷ s) =
    let rest = trim_slashes s in if is_empty rest && eqb (code c) b'/' then "" else c ∷ rest

unfoldable pub new_client : HttpClients → String → List ClientOption → Client × HttpClients
unfolding apply_options trim_slashes
new_client clients base_url opts = apply_options opts (
  record { base_url = trim_slashes base_url; environment = ""; http_client = clients.next },
  record (set_timeout clients clients.next default_request_timeout) { next = clients.next + 1 },
)

-- A response: its status, the bytes that arrive, and the error with which reading then fails.
pub record HttpResponse : Type 0 where
  pub status_code : ℕ
  pub bytes : List ℕ
  pub fails : Option Error

-- `io.ReadAll(io.LimitReader(resp.Body, maxResponseBytes))`: behind the limit nothing is read
unfoldable pub read_response : HttpResponse → Result (List ℕ)
read_response resp =
    if ltb (length resp.bytes) max_response_bytes
    then elim resp.fails [ none ↦ ok resp.bytes | some e ↦ err e ]
    else ok (take max_response_bytes resp.bytes)

unfoldable pub endpoint : Client → String → String → String
unfolding path_escape query_escape
endpoint c service environment =
    let path = c.base_url <> "/api/v1/deployments/" <> path_escape service in
    if is_empty environment then path else path <> "?environment=" <> query_escape environment

-- `http.NewRequestWithContext` and `Do`, with the address of the client and the request's URL; the
-- text of bytes; and `json.Unmarshal` into the payload, whose deployment may be nil.
module _ {Request : Type 0} (new_request : Context → String → Result Request)
    (do_request : HttpClients → ℕ → Request → Result HttpResponse) (text_of : List ℕ → String)
    (unmarshal : List ℕ → Result (Option Deployment)) where
  unfoldable pub decode_payload : List ℕ → Result Deployment
  decode_payload body = elim (unmarshal body) [
    | err e ↦ err (wrap "otelbridge: decode response: " e "")
    | ok none ↦ err resolver_not_found
    | ok (some d) ↦ ok d
  ]

  unfoldable pub read_answer : HttpResponse → Result Deployment
  unfolding read_response decode_payload
  read_answer resp = elim (read_response resp) [
    | err e ↦ err (wrap "otelbridge: read response: " e "")
    | ok body ↦
        if eqb resp.status_code 200
        then decode_payload body
        else if eqb resp.status_code 404
        then err resolver_not_found
        else err (
            plain (
              "otelbridge: bridge returned status "
              <> decimal (pos resp.status_code)
              <> ": "
              <> trim_space (text_of body)))
  ]

  unfoldable pub get_deployment :
      HttpClients → Context → Client → String → String → Result Deployment
  unfolding endpoint read_answer
  get_deployment clients ctx c service environment =
      if is_empty service
      then err (plain "otelbridge: service name is required")
      else elim (new_request ctx (endpoint c service environment)) [
        | err e ↦ err (wrap "otelbridge: build request: " e "")
        | ok req ↦ elim (do_request clients c.http_client req) [
          | err e ↦ err (wrap "otelbridge: request failed: " e "")
          | ok resp ↦ read_answer resp
        ]
      ]

  abbrev pub answer_of : Result Deployment → Answer
  answer_of (ok d) = record { deployment = some d; err = none }
  answer_of (err e) = failure e

  unfoldable pub resolve_deployment : HttpClients → Context → Client → String → Answer
  unfolding get_deployment
  resolve_deployment clients ctx c service =
      answer_of (get_deployment clients ctx c service c.environment)
