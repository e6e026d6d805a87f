-- ===== src/Errors.antt =====
-- Go's `error` values, as the packages build and test them: `errors.New`, `fmt.Errorf` with `%w`,
-- and `errors.Is` against the three sentinels of the program and that of a missing file.
use cdevents_otel_bridge.Prelude.{String, ◌<>◌, Bool, true, false, ◌≡◌, refl, ◌⊎◌, inl, inr}

pub data Error : Type 0 where
  -- storage.ErrNotFound, cdevents.ErrInvalidEvent, otelbridge.ErrNotFound
  not_found invalid_event resolver_not_found : Error
  -- os.ErrNotExist
  not_exist : Error
  -- an error that wraps none of these: its text
  plain : String → Error
  -- fmt.Errorf("<before>%w<after>", err)
  wrap : String → Error → String → Error

-- err.Error()
pub message : Error → String
message not_found = "not found"
message invalid_event = "invalid event"
message resolver_not_found = "otelbridge: deployment not found"
message not_exist = "file does not exist"
message (plain text) = text
message (wrap before e after) = before <> message e <> after

-- errors.Is(err, storage.ErrNotFound)
unfoldable pub is_not_found : Error → Bool
is_not_found not_found = true
is_not_found (wrap before e after) = is_not_found e
is_not_found _ = false

-- errors.Is(err, cdevents.ErrInvalidEvent)
unfoldable pub is_invalid_event : Error → Bool
is_invalid_event invalid_event = true
is_invalid_event (wrap before e after) = is_invalid_event e
is_invalid_event _ = false

-- errors.Is(err, otelbridge.ErrNotFound)
unfoldable pub is_resolver_not_found : Error → Bool
is_resolver_not_found resolver_not_found = true
is_resolver_not_found (wrap before e after) = is_resolver_not_found e
is_resolver_not_found _ = false

-- errors.Is(err, os.ErrNotExist)
unfoldable pub is_not_exist : Error → Bool
is_not_exist not_exist = true
is_not_exist (wrap before e after) = is_not_exist e
is_not_exist _ = false

-- A function that returns `(value, error)`: one of the two, as every such function here does.
pub data Result {ℓ} (A : Type ℓ) : Type ℓ where
  ok : A → Result A
  err : Error → Result A

infixl 5 ◌>>=◌
abbrev pub ◌>>=◌ {ℓ κ} : {A : Type ℓ} {B : Type κ} → Result A → (A → Result B) → Result B
ok a >>= f = f a
err e >>= f = err e

-- `if err != nil { return nil, fmt.Errorf("<before>%w", err) }`
abbrev pub wrapped {ℓ} : {A : Type ℓ} → String → Result A → Result A
wrapped before (ok a) = ok a
wrapped before (err e) = err (wrap before e "")

pub Result-cases {ℓ} :
    {A : Type ℓ} (r : Result A) → ((a : A) × (r ≡ ok a)) ⊎ ((e : Error) × (r ≡ err e))
Result-cases (ok a) = inl (a, refl)
Result-cases (err e) = inr (e, refl)

pub ok_inj {ℓ} : {A : Type ℓ} {a b : A} → ok a ≡ ok b → a ≡ b
ok_inj e = cc

pub err_inj {ℓ} : {A : Type ℓ} {a b : Error} → ◌≡◌ {A = Result A} (err a) (err b) → a ≡ b
err_inj e = cc

pub ok_not_err {ℓ} : {A : Type ℓ} {a : A} {e : Error} → ok a ≡ err e → ⊥
ok_not_err e = cc

pub err_not_ok {ℓ} : {A : Type ℓ} {a : A} {e : Error} → err e ≡ ok a → ⊥
err_not_ok e = cc
