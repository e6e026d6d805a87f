-- ===== src/Config/Durations.antt =====
-- config.go: `TTL`, in the 64 bits of a `time.Duration`.
use cdevents_otel_bridge.Prelude.{
  ℕ, ◌≤◌, ◌<◌, ◌*◌, ◌^◌, ◌%◌, true, ◌≡◌, refl, arith, ltb, Bool-cases, inl, inr,
}
use cdevents_otel_bridge.Prelude.Int.{pos, ltb_ℤ}
use cdevents_otel_bridge.Time.{second}
use cdevents_otel_bridge.Config.{StorageConfig, to_int64, ttl}

kept : (n : ℕ) → n ≤ 18446744073 → n * 1000000000 % 18446744073709551616 ≡ n * 1000000000
kept n h = omega (arith, h)

within : (n : ℕ) → n ≤ 9223372036 → n * 1000000000 % 18446744073709551616 ≡ n * 1000000000
within n h = kept n (omega (arith, h))

too_small : (n : ℕ) → 9223372036 < n → ltb (n * 1000000000) (2 ^ 63) ≡ true → ⊥
too_small n h q = ground (arith, h, q)

-- A time to live of at most 9223372036 seconds is that number of seconds.
pub ttl_exact :
    (s : StorageConfig) (n : ℕ) → s.redis_ttl ≡ pos n → n ≤ 9223372036 → ttl s ≡ pos (n * second)
unfolding ttl to_int64
ttl_exact s n e h = rw (e, within n h) (ground (arith, h))

-- A time to live of more than 9223372036 seconds and at most 18446744073 is negative in the 64 bits
-- of a duration.
pub ttl_overflows :
    (s : StorageConfig) (n : ℕ)
    → s.redis_ttl ≡ pos n
    → 9223372036 < n
    → n ≤ 18446744073
    → ltb_ℤ (ttl s) (pos 0) ≡ true
unfolding ttl to_int64
ttl_overflows s n e h k =
    rw (e, kept n k)
      (elim (Bool-cases (ltb (n * second) (2 ^ 63))) [
        | inl q ↦ absurd (too_small n h q)
        | inr q ↦ rw q refl
      ])
