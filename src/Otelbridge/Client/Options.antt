-- ===== src/Otelbridge/Client/Options.antt =====
-- client.go: whose `http.Client` the options of `NewClient` change.
use mathlib.Core.List.{[], ◌∷◌}
use cdevents_otel_bridge.Prelude.{
  ℕ, String, List, none, some, true, ◌≡◌, ◌≢◌, refl, ◌∙◌, All, Bool-cases, inl, inr, eqb, arith,
}
use cdevents_otel_bridge.Prelude.Int.{ℤ, pos, ltb_ℤ}
use cdevents_otel_bridge.Otelbridge.Client.{
  HttpClients, Client, ClientOption, with_http_client, with_environment, with_request_timeout,
  set_timeout, apply_option, apply_options, new_client, default_request_timeout,
}

-- An option that brings no `http.Client` along.
abbrev pub BringsNone : ClientOption → Type 0
BringsNone (with_http_client none) = Unit
BringsNone (with_http_client (some address)) = ⊥
BringsNone (with_environment environment) = Unit
BringsNone (with_request_timeout timeout) = Unit

-- The client at an address, and all others as they were.
abbrev pub IsOwn : HttpClients → ℕ → Client × HttpClients → Type 0
IsOwn clients address (c, changed) =
    (c.http_client ≡ address) × ((a : ℕ) → a ≢ address → changed.timeout a ≡ clients.timeout a)

set_timeout_other :
    (clients : HttpClients) (address a : ℕ) (timeout : ℤ)
    → a ≢ address
    → (set_timeout clients address timeout).timeout a ≡ clients.timeout a
set_timeout_other clients address a timeout h = elim (Bool-cases (eqb a address)) [
  | inl e ↦ absurd (h (ground (arith, e)))
  | inr e ↦ rw e refl
]

apply_option-IsOwn :
    (clients : HttpClients) (address : ℕ) (opt : ClientOption) (s : Client × HttpClients)
    → BringsNone opt
    → IsOwn clients address s
    → IsOwn clients address (apply_option opt s)
unfolding apply_option
apply_option-IsOwn clients address (with_http_client none) (c, changed) b h = h
apply_option-IsOwn clients address (with_http_client (some a)) (c, changed) b h = absurd b
apply_option-IsOwn clients address (with_environment e) (c, changed) b h = h
apply_option-IsOwn clients address (with_request_timeout t) (c, changed) b (own, others) =
    elim (Bool-cases (ltb_ℤ (pos 0) t)) [
      | inl e ↦ rw e (
        own,
        λ a h. set_timeout_other changed c.http_client a t (λ same. h (same ∙ own)) ∙ others a h,
      )
      | inr e ↦ rw e (own, others)
    ]

apply_options-IsOwn :
    (clients : HttpClients) (address : ℕ) (opts : List ClientOption) (s : Client × HttpClients)
    → All BringsNone opts
    → IsOwn clients address s
    → IsOwn clients address (apply_options opts s)
unfolding apply_options
apply_options-IsOwn clients address [] s b h = h
apply_options-IsOwn clients address (opt ∷ opts) s (b, bs) h =
    apply_options-IsOwn clients address opts (apply_option opt s) bs
      (apply_option-IsOwn clients address opt s b h)

-- Without an `http.Client` of the caller among its options, `NewClient` uses a new one, and no
-- timeout of another changes.
pub new_client-IsOwn :
    (clients : HttpClients) (base_url : String) (opts : List ClientOption)
    → All BringsNone opts
    → IsOwn clients clients.next (new_client clients base_url opts)
unfolding new_client
new_client-IsOwn clients base_url opts b =
    apply_options-IsOwn clients clients.next opts _ b
      (refl, λ a h. set_timeout_other clients clients.next a default_request_timeout h)

eqb_refl : (a : ℕ) → eqb a a ≡ true
eqb_refl a = ground arith

-- A timeout option behind the caller's `http.Client` sets the timeout of that very client, with
-- which the caller goes on.
pub new_client_shares :
    (clients : HttpClients) (base_url : String) (address : ℕ) (timeout : ℤ)
    → ltb_ℤ (pos 0) timeout ≡ true
    → (new_client clients base_url
          (with_http_client (some address) ∷ with_request_timeout timeout ∷ [])).1.timeout
        address
      ≡ timeout
unfolding new_client apply_options apply_option
new_client_shares clients base_url address timeout h = rw (h, eqb_refl address) refl
