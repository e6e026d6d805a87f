-- ===== src/Config/Overrides.antt =====
-- config.go: what the environment overrides.
use cdevents_otel_bridge.Prelude.{
  String, Bool, Option, none, some, ◌≡◌, inl, inr, refl, sym, ap, ◌<>◌, is_empty, Bool-cases,
  Option-cases, if◌then◌else◌,
}
use cdevents_otel_bridge.Prelude.Int.{ℤ}
use cdevents_otel_bridge.Errors.{Error, Result, ok, err, wrap, Result-cases, ◌>>=◌}
use cdevents_otel_bridge.Strconv.{atoi, parse_bool, atoi_error, parse_bool_error}
use cdevents_otel_bridge.Config.{
  Config, override, override_text, parsed, apply_env_overrides, override_host, override_port,
  override_storage_type, override_redis_url, override_redis_ttl, override_enabled,
  override_endpoint, override_insecure, override_service_name, override_level, override_format,
}

module _ (quote : String → String) (getenv : String → String) where
  -- The value of one setting: the variable's, where it is set.
  abbrev pub setting_text : String → String → String
  setting_text key old = if is_empty (getenv key) then old else getenv key

  abbrev pub read_value {ℓ} : {A : Type ℓ} → String → Error → Option A → Result A
  read_value key e none = err (wrap ("invalid " <> key <> " " <> quote (getenv key) <> ": ") e "")
  read_value key e (some a) = ok a

  abbrev pub setting {ℓ} :
      {A : Type ℓ} → (String → Option A) → (String → Error) → String → A → Result A
  setting parse failed key old =
      if is_empty (getenv key)
      then ok old
      else read_value key (failed (getenv key)) (parse (getenv key))

  abbrev pub setting_int : String → ℤ → Result ℤ
  setting_int = setting atoi (atoi_error quote)

  abbrev pub setting_bool : String → Bool → Result Bool
  setting_bool = setting parse_bool (parse_bool_error quote)

  module _ (key : String) where
    text_step :
        (assign : String → Config → Config) (old : Config → String)
        → ((c : Config) → assign (old c) c ≡ c)
        → (c : Config)
        → override_text quote getenv key assign c ≡ ok (assign (setting_text key (old c)) c)
    text_step assign old kept c = elim (Bool-cases (is_empty (getenv key))) [
      | inl e ↦ rw e (ap ok (sym (kept c)))
      | inr e ↦ rw e refl
    ]

    parsed_step {ℓ} :
        {A : Type ℓ} (parse : String → Option A) (failed : String → Error)
        (assign : A → Config → Config) (old : Config → A)
        → ((c : Config) → assign (old c) c ≡ c)
        → (c : Config)
        → override quote getenv key (λ v. parsed quote getenv key v (failed v) (parse v) assign) c
          ≡ (setting parse failed key (old c) >>= (λ a. ok (assign a c)))
    parsed_step parse failed assign old kept c = elim (Bool-cases (is_empty (getenv key))) [
      | inl e ↦ rw e (ap ok (sym (kept c)))
      | inr e ↦ elim (Option-cases (parse (getenv key))) [
        | inl p ↦ rw (e, p) refl
        | inr (a, p) ↦ rw (e, p) refl
      ]
    ]

  host_step :
      (c : Config)
      → override_host quote getenv c
        ≡ ok (record c {
          server = record c.server { host = setting_text "BRIDGE_HOST" c.server.host };
        })
  unfolding override_host
  host_step =
      text_step "BRIDGE_HOST" (λ v c. record c { server = record c.server { host = v } })
        (λ c. c.server.host) (λ c. refl)

  port_step :
      (c : Config)
      → override_port quote getenv c ≡ (
          setting_int "BRIDGE_PORT" c.server.port
          >>= (λ v. ok (record c { server = record c.server { port = v } })))
  unfolding override_port
  port_step =
      parsed_step "BRIDGE_PORT" atoi (atoi_error quote)
        (λ v c. record c { server = record c.server { port = v } }) (λ c. c.server.port) (λ c. refl)

  storage_type_step :
      (c : Config)
      → override_storage_type quote getenv c
        ≡ ok (record c {
          storage = record c.storage { type = setting_text "BRIDGE_STORAGE_TYPE" c.storage.type };
        })
  unfolding override_storage_type
  storage_type_step =
      text_step "BRIDGE_STORAGE_TYPE" (λ v c. record c { storage = record c.storage { type = v } })
        (λ c. c.storage.type) (λ c. refl)

  redis_url_step :
      (c : Config)
      → override_redis_url quote getenv c
        ≡ ok (record c {
          storage = record c.storage {
            redis_url = setting_text "BRIDGE_REDIS_URL" c.storage.redis_url;
          };
        })
  unfolding override_redis_url
  redis_url_step =
      text_step "BRIDGE_REDIS_URL"
        (λ v c. record c { storage = record c.storage { redis_url = v } })
        (λ c. c.storage.redis_url) (λ c. refl)

  redis_ttl_step :
      (c : Config)
      → override_redis_ttl quote getenv c ≡ (
          setting_int "BRIDGE_REDIS_TTL" c.storage.redis_ttl
          >>= (λ v. ok (record c { storage = record c.storage { redis_ttl = v } })))
  unfolding override_redis_ttl
  redis_ttl_step =
      parsed_step "BRIDGE_REDIS_TTL" atoi (atoi_error quote)
        (λ v c. record c { storage = record c.storage { redis_ttl = v } })
        (λ c. c.storage.redis_ttl) (λ c. refl)

  enabled_step :
      (c : Config)
      → override_enabled quote getenv c ≡ (
          setting_bool "BRIDGE_OTEL_ENABLED" c.otel.enabled
          >>= (λ v. ok (record c { otel = record c.otel { enabled = v } })))
  unfolding override_enabled
  enabled_step =
      parsed_step "BRIDGE_OTEL_ENABLED" parse_bool (parse_bool_error quote)
        (λ v c. record c { otel = record c.otel { enabled = v } }) (λ c. c.otel.enabled) (λ c. refl)

  endpoint_step :
      (c : Config)
      → override_endpoint quote getenv c
        ≡ ok (record c {
          otel = record c.otel { endpoint = setting_text "BRIDGE_OTEL_ENDPOINT" c.otel.endpoint };
        })
  unfolding override_endpoint
  endpoint_step =
      text_step "BRIDGE_OTEL_ENDPOINT" (λ v c. record c { otel = record c.otel { endpoint = v } })
        (λ c. c.otel.endpoint) (λ c. refl)

  insecure_step :
      (c : Config)
      → override_insecure quote getenv c ≡ (
          setting_bool "BRIDGE_OTEL_INSECURE" c.otel.insecure
          >>= (λ v. ok (record c { otel = record c.otel { insecure = v } })))
  unfolding override_insecure
  insecure_step =
      parsed_step "BRIDGE_OTEL_INSECURE" parse_bool (parse_bool_error quote)
        (λ v c. record c { otel = record c.otel { insecure = v } }) (λ c. c.otel.insecure)
        (λ c. refl)

  service_name_step :
      (c : Config)
      → override_service_name quote getenv c
        ≡ ok (record c {
          otel = record c.otel {
            service_name = setting_text "BRIDGE_OTEL_SERVICE_NAME" c.otel.service_name;
          };
        })
  unfolding override_service_name
  service_name_step =
      text_step "BRIDGE_OTEL_SERVICE_NAME"
        (λ v c. record c { otel = record c.otel { service_name = v } }) (λ c. c.otel.service_name)
        (λ c. refl)

  level_step :
      (c : Config)
      → override_level quote getenv c
        ≡ ok (record c {
          log = record c.log { level = setting_text "BRIDGE_LOG_LEVEL" c.log.level };
        })
  unfolding override_level
  level_step =
      text_step "BRIDGE_LOG_LEVEL" (λ v c. record c { log = record c.log { level = v } })
        (λ c. c.log.level) (λ c. refl)

  format_step :
      (c : Config)
      → override_format quote getenv c
        ≡ ok (record c {
          log = record c.log { format = setting_text "BRIDGE_LOG_FORMAT" c.log.format };
        })
  unfolding override_format
  format_step =
      text_step "BRIDGE_LOG_FORMAT" (λ v c. record c { log = record c.log { format = v } })
        (λ c. c.log.format) (λ c. refl)

  -- The configuration under the environment, setting by setting: each variable that is set
  -- overrides its setting, and the first that cannot be read is the error.
  unfoldable pub overridden : Config → Result Config
  overridden c = setting_int "BRIDGE_PORT" c.server.port >>= (λ port.
      setting_int "BRIDGE_REDIS_TTL" c.storage.redis_ttl >>= (λ redis_ttl.
        setting_bool "BRIDGE_OTEL_ENABLED" c.otel.enabled >>= (λ enabled.
          setting_bool "BRIDGE_OTEL_INSECURE" c.otel.insecure >>= (λ insecure. ok (record {
            server = record { host = setting_text "BRIDGE_HOST" c.server.host; port = port };
            storage = record {
              type = setting_text "BRIDGE_STORAGE_TYPE" c.storage.type;
              redis_url = setting_text "BRIDGE_REDIS_URL" c.storage.redis_url;
              redis_ttl = redis_ttl;
            };
            otel = record {
              enabled = enabled;
              endpoint = setting_text "BRIDGE_OTEL_ENDPOINT" c.otel.endpoint;
              insecure = insecure;
              service_name = setting_text "BRIDGE_OTEL_SERVICE_NAME" c.otel.service_name;
            };
            log = record {
              level = setting_text "BRIDGE_LOG_LEVEL" c.log.level;
              format = setting_text "BRIDGE_LOG_FORMAT" c.log.format;
            };
          })))))

  pub apply_env_overrides-overridden :
      (c : Config) → apply_env_overrides quote getenv c ≡ overridden c
  unfolding apply_env_overrides overridden
  apply_env_overrides-overridden c =
      rw (host_step, port_step)
        (elim (Result-cases (setting_int "BRIDGE_PORT" c.server.port)) [
          | inr (e, p) ↦ rw p refl
          | inl (port, p) ↦
              rw (p, storage_type_step, redis_url_step, redis_ttl_step)
                (elim (Result-cases (setting_int "BRIDGE_REDIS_TTL" c.storage.redis_ttl)) [
                  | inr (e, q) ↦ rw q refl
                  | inl (redis_ttl, q) ↦
                      rw (q, enabled_step)
                        (elim (Result-cases (setting_bool "BRIDGE_OTEL_ENABLED" c.otel.enabled)) [
                          | inr (e, r) ↦ rw r refl
                          | inl (enabled, r) ↦
                              rw (r, endpoint_step, insecure_step)
                                (elim (Result-cases
                                  (setting_bool "BRIDGE_OTEL_INSECURE" c.otel.insecure)) [
                                    | inr (e, u) ↦ rw u refl
                                    | inl (insecure, u) ↦
                                        rw (u, service_name_step, level_step, format_step) refl
                                  ])
                        ])
                ])
        ])
