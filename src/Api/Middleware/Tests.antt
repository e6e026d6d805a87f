-- ===== src/Api/Middleware/Tests.antt =====
-- The theorems on the middleware around a router that panics.
use mathlib.Core.List.{[]}
use cdevents_otel_bridge.Prelude.{none, some, ◌≡◌, refl, eq_iff, false_not_true}
use cdevents_otel_bridge.Api.Middleware.{
  HttpRequest, Written, HttpHandler, returned, panicked, other, cors_headers, serve,
}
use cdevents_otel_bridge.Api.Middleware.Laws.{
  AllowsOrigin, EndsCleanly, recovered_status, serve_lem, serve_recovers,
}

abbrev panicking : HttpHandler
panicking w r = (w, panicked (other "boom"))

abbrev unwritten : Written
unwritten = record { headers = []; status = none; bodies = []; logged = [] }

abbrev request : HttpRequest
request = record { method = "GET"; path = "/api/v1/deployments" }

serve_lem_example :
    EndsCleanly (serve panicking unwritten request).1
    × AllowsOrigin (serve panicking unwritten request).0.headers
serve_lem_example = serve_lem panicking unwritten request (λ w r h. h)

serve_recovers_sample :
    ((serve panicking unwritten request).1 ≡ returned)
    × ((serve panicking unwritten request).0.status ≡ some (recovered_status none))
    × ((serve panicking unwritten request).0.logged ≡ [])
serve_recovers_sample =
    serve_recovers panicking unwritten (cors_headers unwritten) request "boom"
      (λ e. false_not_true ((eq_iff "GET" "OPTIONS").1 e)) refl
