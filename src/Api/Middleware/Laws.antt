-- ===== src/Api/Middleware/Laws.antt =====
-- middleware.go: how the chain of middleware ends, and what it writes.
use cdevents_otel_bridge.Prelude.{
  ℕ, String, Option, none, some, false, ◌≡◌, ◌≢◌, refl, sym, ◌∙◌, ◌==◌, eq_iff, Bool-cases, ◌⊎◌,
  inl, inr, arith,
}
use mathlib.Core.Path.{subst}
use cdevents_otel_bridge.Dict
use cdevents_otel_bridge.Dict.{Dict}
use cdevents_otel_bridge.Dict.Laws.{get-put}
use cdevents_otel_bridge.Api.Middleware.{
  HttpRequest, Written, HttpHandler, Ended, returned, panicked, abort_handler, other, write_header,
  write_response, set_header, logging_middleware, recovery_middleware, cors_headers,
  cors_middleware, serve, internal_error, log_request, recover,
}

abbrev pub AllowsOrigin : Dict String → Type 0
AllowsOrigin headers = Dict.get headers "Access-Control-Allow-Origin" ≡ some "*"

-- A handler that leaves the header in place.
abbrev pub KeepsOrigin : HttpHandler → Type 0
KeepsOrigin next =
    (w : Written) (r : HttpRequest) → AllowsOrigin w.headers → AllowsOrigin (next w r).0.headers

-- How a server's handler may end: net/http expects this panic, and only this one.
abbrev pub EndsCleanly : Ended → Type 0
EndsCleanly ended = (ended ≡ returned) ⊎ (ended ≡ panicked abort_handler)

write_header-headers : (status : ℕ) (w : Written) → (write_header status w).headers ≡ w.headers
unfolding write_header
write_header-headers status w = go w.status
  where
    go : (s : Option ℕ) → (write_header status (record w { status = s })).headers ≡ w.headers
    go none = refl
    go (some s) = refl

put-AllowsOrigin :
    (key value : String) (headers : Dict String)
    → (key == "Access-Control-Allow-Origin") ≡ false
    → AllowsOrigin headers
    → AllowsOrigin (Dict.put headers key value)
put-AllowsOrigin key value headers e h =
    get-put headers key value "Access-Control-Allow-Origin" ∙ rw e h

cors_headers-AllowsOrigin : (w : Written) → AllowsOrigin (cors_headers w).headers
cors_headers-AllowsOrigin w = put-AllowsOrigin "Access-Control-Max-Age" "3600" _ refl (
    put-AllowsOrigin "Access-Control-Allow-Headers" "Content-Type, Accept" _ refl (
      put-AllowsOrigin "Access-Control-Allow-Methods" "GET, POST, OPTIONS" _ refl
        (get-put w.headers "Access-Control-Allow-Origin" "*" "Access-Control-Allow-Origin")))

cors-AllowsOrigin :
    (next : HttpHandler) (w : Written) (r : HttpRequest)
    → KeepsOrigin next
    → AllowsOrigin (cors_middleware next w r).0.headers
unfolding cors_middleware Dict.get
cors-AllowsOrigin next w r keeps = elim (Bool-cases (r.method == "OPTIONS")) [
  | inl e ↦
      rw (cors_middleware, e)
        (subst AllowsOrigin (sym (write_header-headers 204 (cors_headers w)))
          (cors_headers-AllowsOrigin w))
  | inr e ↦ rw (cors_middleware, e) (keeps (cors_headers w) r (cors_headers-AllowsOrigin w))
]

log_request-headers :
    (r : HttpRequest) (result : Written × Ended)
    → (log_request r result).0.headers ≡ result.0.headers
unfolding log_request
log_request-headers r (w, returned) = refl
log_request-headers r (w, panicked p) = refl

recover-AllowsOrigin :
    (result : Written × Ended)
    → AllowsOrigin result.0.headers
    → AllowsOrigin (recover result).0.headers
unfolding recover write_response
recover-AllowsOrigin (w, returned) h = h
recover-AllowsOrigin (w, panicked abort_handler) h = h
recover-AllowsOrigin (w, panicked (other message)) h =
    subst AllowsOrigin
      (sym
        (write_header-headers 500 (set_header "Content-Type" "application/json; charset=utf-8" w)))
      (put-AllowsOrigin "Content-Type" "application/json; charset=utf-8" w.headers refl h)

recover-EndsCleanly : (result : Written × Ended) → EndsCleanly (recover result).1
unfolding recover
recover-EndsCleanly (w, returned) = inl refl
recover-EndsCleanly (w, panicked abort_handler) = inr refl
recover-EndsCleanly (w, panicked (other message)) = inl refl

-- Around a router that leaves the header of CORS in place, the chain of middleware returns or
-- panics with `ErrAbortHandler`, whatever the router does, and the headers let every origin read the
-- response.
pub serve_lem :
    (router : HttpHandler) (w : Written) (r : HttpRequest)
    → KeepsOrigin router
    → EndsCleanly (serve router w r).1 × AllowsOrigin (serve router w r).0.headers
unfolding serve recovery_middleware logging_middleware
serve_lem router w r keeps = (
  recover-EndsCleanly _,
  recover-AllowsOrigin (log_request r (cors_middleware router w r)) (
      subst AllowsOrigin (sym (log_request-headers r (cors_middleware router w r)))
        (cors-AllowsOrigin router w r keeps)),
)

-- The status that a client sees once a panic is recovered: the one that was already written.
abbrev pub recovered_status : Option ℕ → ℕ
recovered_status none = 500
recovered_status (some status) = status

write_internal_error :
    (w : Written)
    → ((write_response internal_error w).status ≡ some (recovered_status w.status))
      × ((write_response internal_error w).logged ≡ w.logged)
unfolding write_response write_header
write_internal_error w = go w.status
  where
    go :
        (s : Option ℕ)
        → ((write_response internal_error (record w { status = s })).status
            ≡ some (recovered_status s))
          × ((write_response internal_error (record w { status = s })).logged ≡ w.logged)
    go none = (refl, refl)
    go (some s) = (refl, refl)

cors_passes :
    (router : HttpHandler) (w : Written) (r : HttpRequest)
    → r.method ≢ "OPTIONS"
    → cors_middleware router w r ≡ router (cors_headers w) r
unfolding cors_middleware
cors_passes router w r h =
    let other : (r.method == "OPTIONS") ≡ false = ground (arith, eq_iff r.method "OPTIONS", h) in
    rw other refl

-- Where the router panics with anything but `ErrAbortHandler` on a request that is not a preflight,
-- the chain returns, with the status 500 unless the router had already sent one, and without an
-- entry in the access log.
pub serve_recovers :
    (router : HttpHandler) (w after : Written) (r : HttpRequest) (message : String)
    → r.method ≢ "OPTIONS"
    → router (cors_headers w) r ≡ (after, panicked (other message))
    → ((serve router w r).1 ≡ returned)
      × ((serve router w r).0.status ≡ some (recovered_status after.status))
      × ((serve router w r).0.logged ≡ after.logged)
unfolding serve recovery_middleware logging_middleware log_request recover
serve_recovers router w after r message h p =
    let (status, logged) = write_internal_error after in
    rw (cors_passes router w r h, p) (refl, status, logged)
