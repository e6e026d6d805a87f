-- ===== src/Config/Loading.antt =====
-- config.go: what `Load` returns.
use mathlib.Core.Path.{subst}
use cdevents_otel_bridge.Prelude.{
  String, ◌≡◌, ◌≢◌, ◌↔◌, ◌⊎◌, true, false, false_not_true, is_empty, eq_iff, Bool-cases, inl, inr,
  refl, sym, ◌∙◌, ap, Option-cases,
}
use cdevents_otel_bridge.Prelude.Int.{pos}
use cdevents_otel_bridge.Errors.{Result, ok, Result-cases, ok_inj, err_not_ok}
use cdevents_otel_bridge.Config.{Config, default, validate, apply_env_overrides, from_file, load}
use cdevents_otel_bridge.Config.Laws.{IsValid, validate-IsValid_iff}
use cdevents_otel_bridge.Config.Overrides.{overridden, apply_env_overrides-overridden}

-- The defaults, as docs/configuration.md lists them.
abbrev pub documented : Config
documented = record {
  server = record { host = "0.0.0.0"; port = pos 8080 };
  storage = record { type = "memory"; redis_url = ""; redis_ttl = pos 86400 };
  otel = record {
    enabled = false;
    endpoint = "localhost:4317";
    insecure = true;
    service_name = "cdevents-otel-bridge";
  };
  log = record { level = "info"; format = "json" };
}

-- The defaults where no file is named; else what the decoder makes of the file's text over them.
abbrev pub IsBase :
    (String → Result String) → (String → Config → Result Config) → String → Config → Type 0
IsBase read_file unmarshal path base =
    ((path ≡ "") × (base ≡ documented))
    ⊎ ((path ≢ "")
        × ((text : String) × (read_file path ≡ ok text) × (unmarshal text documented ≡ ok base)))

module _ (quote : String → String) (getenv : String → String) where
  module _ (read_file : String → Result String) (unmarshal : String → Config → Result Config) where
    from_file_iff :
        (path : String) (base : Config)
        → (from_file quote getenv read_file unmarshal path ≡ ok base)
          ↔ IsBase read_file unmarshal path base
    unfolding from_file default
    from_file_iff path base = elim (Bool-cases (is_empty path)) [
      | inl e ↦ rw e (
        λ h. inl ((eq_iff path "").0 e, sym (ok_inj h)),
        λ h. elim h [
          | inl (_, same) ↦ ap ok (sym same)
          | inr (named, _) ↦ absurd (named ((eq_iff path "").0 e))
        ],
      )
      | inr e ↦
          let named : path ≢ "" = λ p. false_not_true (sym e ∙ (eq_iff path "").1 p) in
          elim (Result-cases (read_file path)) [
            | inr (f, p) ↦
                rw (e, p)
                  (
                    λ h. absurd (err_not_ok h),
                    λ h. elim h [
                      | inl (empty, _) ↦ absurd (named empty)
                      | inr (_, (text, q, _)) ↦ absurd (err_not_ok q)
                    ],
                  )
            | inl (text, p) ↦ elim (Result-cases (unmarshal text documented)) [
              | inr (f, q) ↦
                  rw (e, p, q)
                    (
                      λ h. absurd (err_not_ok h),
                      λ h. elim h [
                        | inl (empty, _) ↦ absurd (named empty)
                        | inr (_, (other, r, t)) ↦
                            absurd
                              (err_not_ok (sym q ∙ ap (λ x. unmarshal x documented) (ok_inj r) ∙ t))
                      ],
                    )
              | inl (c, q) ↦
                  rw (e, p, q)
                    (
                      λ h. inr (named, (text, refl, q ∙ h)),
                      λ h. elim h [
                        | inl (empty, _) ↦ absurd (named empty)
                        | inr (_, (other, r, t)) ↦
                            sym q ∙ ap (λ x. unmarshal x documented) (ok_inj r) ∙ t
                      ],
                    )
            ]
          ]
    ]

    -- `Load` returns a configuration exactly when it is valid and is the one that the environment
    -- gives over what the file gives over the documented defaults, or over the defaults themselves
    -- where no file is named.
    pub load_iff :
        (path : String) (cfg : Config)
        → (load quote getenv read_file unmarshal path ≡ ok cfg) ↔ (
            (base : Config) × IsBase read_file unmarshal path base
            × (overridden quote getenv base ≡ ok cfg)
            × IsValid cfg)
    unfolding load
    load_iff path cfg = (forth, back)
      where
        forth :
            load quote getenv read_file unmarshal path ≡ ok cfg
            → (base : Config) × IsBase read_file unmarshal path base
              × (overridden quote getenv base ≡ ok cfg)
              × IsValid cfg
        forth h = elim (Result-cases (from_file quote getenv read_file unmarshal path)) [
          | inr (e, p) ↦ absurd (err_not_ok (rw p at h))
          | inl (base, p) ↦ elim (Result-cases (apply_env_overrides quote getenv base)) [
            | inr (e, q) ↦ absurd (err_not_ok (rw (p, q) at h))
            | inl (c, q) ↦ elim (Option-cases (validate quote c)) [
              | inr (e, r) ↦ absurd (err_not_ok (rw (p, q, r) at h))
              | inl r ↦
                  let same : c ≡ cfg = ok_inj (rw (p, q, r) at h) in
                  (
                    base,
                    (from_file_iff path base).0 p,
                    sym (apply_env_overrides-overridden quote getenv base) ∙ q ∙ ap ok same,
                    subst IsValid same ((validate-IsValid_iff quote c).0 r),
                  )
            ]
          ]
        ]

        back :
            ((base : Config) × IsBase read_file unmarshal path base
              × (overridden quote getenv base ≡ ok cfg)
              × IsValid cfg)
            → load quote getenv read_file unmarshal path ≡ ok cfg
        back (base, p, q, v) =
            rw
              (
                (from_file_iff path base).1 p,
                apply_env_overrides-overridden quote getenv base ∙ q,
                (validate-IsValid_iff quote cfg).1 v,
              )
              refl
