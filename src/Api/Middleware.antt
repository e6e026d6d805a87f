-- ===== src/Api/Middleware.antt =====
-- middleware.go, and the order in which server.go puts the middleware around the router. The
-- router's handler is a parameter. The two middlewares of chi in front, RequestID and RealIP, write
-- no response.
pub mod Laws
mod Tests
use mathlib.Core.List.{[], ◌∷◌}
use cdevents_otel_bridge.Prelude.{
  ℕ, String, List, ◌++◌, Option, none, some, Bool, true, false, ◌==◌, if◌then◌else◌,
}
use cdevents_otel_bridge.Dict
use cdevents_otel_bridge.Dict.{Dict}
use cdevents_otel_bridge.Api.{Body, error_response, Response, status_internal_server_error}

pub record HttpRequest : Type 0 where
  pub method : String
  pub path : String

-- What has been written to an `http.ResponseWriter`, and what has been logged. The headers are
-- those of the map; the status, once written, sends them.
pub record Written : Type 0 where
  pub headers : Dict String
  pub status : Option ℕ
  pub bodies : List Body
  pub logged : List (String × String × Option ℕ)

-- w.Header().Set(key, value)
abbrev pub set_header : String → String → Written → Written
set_header key value w = record w { headers = Dict.put w.headers key value }

-- w.WriteHeader(status): only the first counts
unfoldable pub write_header : ℕ → Written → Written
write_header status w = elim w.status [ none ↦ record w { status = some status } | some sent ↦ w ]

-- How a handler ends.
pub data Panic : Type 0 where
  -- http.ErrAbortHandler
  abort_handler : Panic
  other : String → Panic

pub data Ended : Type 0 where
  returned : Ended
  panicked : Panic → Ended

abbrev pub HttpHandler : Type 0
HttpHandler = Written → HttpRequest → Written × Ended

-- The response of responses.go, as it is written.
unfoldable pub write_response : Response → Written → Written
unfolding write_header
write_response response w =
    let begun =
      write_header response.status
        (set_header "Content-Type" "application/json; charset=utf-8" w) in
    record begun { bodies = begun.bodies ++ (response.body ∷ []) }

-- What stands behind `next.ServeHTTP(ww, r)`: not run where that panics.
unfoldable pub log_request : HttpRequest → Written × Ended → Written × Ended
log_request r (w, returned) =
    (record w { logged = w.logged ++ ((r.method, r.path, w.status) ∷ []) }, returned)
log_request r (w, panicked p) = (w, panicked p)

unfoldable pub logging_middleware : HttpHandler → HttpHandler
unfolding log_request
logging_middleware next w r = log_request r (next w r)

-- The error of `respondError` is two texts, which are always encoded.
abbrev pub internal_error : Response
internal_error = record {
  status = status_internal_server_error;
  body = error_response "internal_error" "Internal server error";
}

-- the deferred function
unfoldable pub recover : Written × Ended → Written × Ended
unfolding write_response
recover (w, returned) = (w, returned)
recover (w, panicked abort_handler) = (w, panicked abort_handler)
recover (w, panicked (other message)) = (write_response internal_error w, returned)

unfoldable pub recovery_middleware : HttpHandler → HttpHandler
unfolding recover
recovery_middleware next w r = recover (next w r)

abbrev pub cors_headers : Written → Written
cors_headers w = set_header "Access-Control-Max-Age" "3600" (
    set_header "Access-Control-Allow-Headers" "Content-Type, Accept" (
      set_header "Access-Control-Allow-Methods" "GET, POST, OPTIONS"
        (set_header "Access-Control-Allow-Origin" "*" w)))

unfoldable pub cors_middleware : HttpHandler → HttpHandler
unfolding write_header
cors_middleware next w r =
    if r.method == "OPTIONS"
    then (write_header 204 (cors_headers w), returned)
    else next (cors_headers w) r

-- The chain of server.go, the outermost first.
unfoldable pub serve : HttpHandler → HttpHandler
unfolding recovery_middleware logging_middleware cors_middleware
serve router = recovery_middleware (logging_middleware (cors_middleware router))
