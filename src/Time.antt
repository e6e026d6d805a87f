-- ===== src/Time.antt =====
-- `time.Time`, as far as the program reads it: the instant, in nanoseconds. The origin is
-- -0001-01-01T00:00:00Z, which lies before every instant that an RFC 3339 text can name, so every
-- instant is a natural number. `Before`, `After` and `Equal` compare instants only, and the
-- location of a time shows only where it is formatted. A `time.Duration` is a signed number of
-- nanoseconds.
use cdevents_otel_bridge.Prelude.{ℕ, ◌*◌, Bool, ltb, eqb}

abbrev pub Time : Type 0
Time = ℕ

-- The zero `Time` is 0001-01-01T00:00:00Z, 731 days after the origin.
abbrev pub zero_time : Time
zero_time = 731 * 86400 * 1000000000

abbrev pub second : ℕ
second = 1000000000

-- t.IsZero()
abbrev pub is_zero : Time → Bool
is_zero t = eqb t zero_time

-- t.Before(u)
abbrev pub before : Time → Time → Bool
before t u = ltb t u

-- t.After(u)
abbrev pub after : Time → Time → Bool
after t u = ltb u t

-- t.Equal(u)
abbrev pub equal : Time → Time → Bool
equal t u = eqb t u
