-- ===== src/Config/Laws.antt =====
-- config.go: which configurations are valid, what the environment overrides, and what `Load`
-- returns.
use mathlib.Core.List.{[], ◌∷◌}
use mathlib.Core.List.Memᴰ
use cdevents_otel_bridge.Prelude.{
  ℕ, ◌≤◌, String, true, false, List, Option, none, some, ◌≡◌, ◌≢◌, ◌↔◌, ◌⊎◌, inl, inr, refl, sym,
  ◌∙◌, ◌==◌, eq_iff, Memᴰ, Bool-cases, none_not_some, false_not_true, true_not_false, arith,
}
use cdevents_otel_bridge.Prelude.Int.{ℤ, pos, negsuc}
use cdevents_otel_bridge.Errors.{Error}
use cdevents_otel_bridge.Text.{one_of}
use cdevents_otel_bridge.Config.{
  Config, ServerConfig, StorageConfig, OtelConfig, LogConfig, storage_memory, storage_redis,
  log_format_json, log_format_text, validate, validate_port, validate_storage, validate_ttl,
  validate_level, validate_format, validate_otel, ◌and_then◌,
}

-- What the rest of the program may rely on.
pub record IsValid (c : Config) : Type 0 where
  pub port : (n : ℕ) × (c.server.port ≡ pos n) × (1 ≤ n) × (n ≤ 65535)
  pub storage :
      (c.storage.type ≡ storage_memory)
      ⊎ ((c.storage.type ≡ storage_redis) × (c.storage.redis_url ≢ ""))
  pub ttl : (n : ℕ) × (c.storage.redis_ttl ≡ pos n)
  pub level : Memᴰ c.log.level ("debug" ∷ "info" ∷ "warn" ∷ "error" ∷ [])
  pub format : Memᴰ c.log.format (log_format_json ∷ log_format_text ∷ [])
  pub otel : (c.otel.enabled ≡ false) ⊎ ((c.otel.endpoint ≢ "") × (c.otel.service_name ≢ ""))

one_of_iff : (ts : List String) (s : String) → (one_of ts s ≡ true) ↔ Memᴰ s ts
unfolding one_of
one_of_iff [] s = (λ h. absurd (false_not_true h), λ m. absurd (Memᴰ.not-nil m))
one_of_iff (t ∷ ts) s = elim (Bool-cases (s == t)) [
  | inl e ↦ rw e (λ _. Memᴰ.head ((eq_iff s t).0 e), λ _. refl)
  | inr e ↦ rw e (
    λ h. Memᴰ.tail ((one_of_iff ts s).0 h),
    λ m. elim (Memᴰ.cases_cons m) [
      | inl same ↦ absurd (true_not_false (sym ((eq_iff s t).1 same) ∙ e))
      | inr r ↦ (one_of_iff ts s).1 r
    ],
  )
]

pos_inj : {m n : ℕ} → pos m ≡ pos n → m ≡ n
pos_inj e = cc

pos_not_negsuc : {m n : ℕ} → pos m ≡ negsuc n → ⊥
pos_not_negsuc e = cc

module _ (quote : String → String) where
  port_iff :
      (s : ServerConfig)
      → (validate_port quote s ≡ none) ↔ ((n : ℕ) × (s.port ≡ pos n) × (1 ≤ n) × (n ≤ 65535))
  unfolding validate_port
  port_iff s = go s.port
    where
      go :
          (p : ℤ)
          → (validate_port quote (record { host = s.host; port = p }) ≡ none)
            ↔ ((n : ℕ) × (p ≡ pos n) × (1 ≤ n) × (n ≤ 65535))
      go (pos n) = (
        λ h. (n, refl, ground arith, ground arith),
        λ (m, e, a, b). let same : n ≡ m = pos_inj e in ground arith,
      )
      go (negsuc n) =
          (λ h. absurd (none_not_some (sym h)), λ (m, e, _, _). absurd (pos_not_negsuc (sym e)))

  storage_iff :
      (s : StorageConfig)
      → (validate_storage quote s ≡ none)
        ↔ ((s.type ≡ storage_memory) ⊎ ((s.type ≡ storage_redis) × (s.redis_url ≢ "")))
  unfolding validate_storage
  storage_iff s =
      ground
        (arith, eq_iff s.type storage_memory, eq_iff s.type storage_redis, eq_iff s.redis_url "")

  level_iff :
      (l : LogConfig)
      → (validate_level quote l ≡ none) ↔ Memᴰ l.level ("debug" ∷ "info" ∷ "warn" ∷ "error" ∷ [])
  unfolding validate_level
  level_iff l = ground (arith, one_of_iff ("debug" ∷ "info" ∷ "warn" ∷ "error" ∷ []) l.level)

  otel_iff :
      (o : OtelConfig)
      → (validate_otel quote o ≡ none)
        ↔ ((o.enabled ≡ false) ⊎ ((o.endpoint ≢ "") × (o.service_name ≢ "")))
  unfolding validate_otel
  otel_iff o = ground (arith, eq_iff o.endpoint "", eq_iff o.service_name "")

  ttl_iff : (s : StorageConfig) → (validate_ttl quote s ≡ none) ↔ ((n : ℕ) × (s.redis_ttl ≡ pos n))
  unfolding validate_ttl
  ttl_iff s = go s.redis_ttl
    where
      go :
          (t : ℤ)
          → (validate_ttl quote (record { type = s.type; redis_url = s.redis_url; redis_ttl = t })
              ≡ none)
            ↔ ((n : ℕ) × (t ≡ pos n))
      go (pos n) = (λ h. (n, refl), λ _. ground arith)
      go (negsuc n) =
          (λ h. absurd (none_not_some (sym h)), λ (m, e). absurd (pos_not_negsuc (sym e)))

  format_iff :
      (l : LogConfig)
      → (validate_format quote l ≡ none) ↔ Memᴰ l.format (log_format_json ∷ log_format_text ∷ [])
  unfolding validate_format
  format_iff l = ground (arith, one_of_iff (log_format_json ∷ log_format_text ∷ []) l.format)

  and_then_iff : (o p : Option Error) → ((o and_then p) ≡ none) ↔ ((o ≡ none) × (p ≡ none))
  and_then_iff none p = (λ h. (refl, h), λ h. h.1)
  and_then_iff (some e) p =
      (λ h. absurd (none_not_some (sym h)), λ h. absurd (none_not_some (sym h.0)))

  -- `Validate` accepts exactly the valid configurations: a port from 1 to 65535, a known storage
  -- type and a URL where it is Redis, a time to live that is not negative, a known log level and
  -- format, and where tracing is enabled an endpoint and a service name.
  pub validate-IsValid_iff : (c : Config) → (validate quote c ≡ none) ↔ IsValid c
  unfolding validate
  validate-IsValid_iff c = (
    λ h.
        let (a, h1) = (and_then_iff _ _).0 h in
        let (b, h2) = (and_then_iff _ _).0 h1 in
        let (t, h3) = (and_then_iff _ _).0 h2 in
        let (l, h4) = (and_then_iff _ _).0 h3 in
        let (f, o) = (and_then_iff _ _).0 h4 in
        record {
          port = (port_iff c.server).0 a;
          storage = (storage_iff c.storage).0 b;
          ttl = (ttl_iff c.storage).0 t;
          level = (level_iff c.log).0 l;
          format = (format_iff c.log).0 f;
          otel = (otel_iff c.otel).0 o;
        },
    λ v.
        rw
          (
            (port_iff c.server).1 v.port,
            (storage_iff c.storage).1 v.storage,
            (ttl_iff c.storage).1 v.ttl,
            (level_iff c.log).1 v.level,
            (format_iff c.log).1 v.format,
          )
          ((otel_iff c.otel).1 v.otel),
  )
