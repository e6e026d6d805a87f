-- ===== src/Api/Queries/Laws.antt =====
-- handlers.go: the bounds of a listing, and what the listing of the in-memory storage holds.
use cdevents_otel_bridge.Prelude.{
  none_not_some, some_inj, ℕ, zero, suc, ◌≤◌, String, ◌≡◌, sym, Option, none, some, is_empty, arith,
  if◌then◌else◌, Bool-cases, inl, inr, ltb,
}
use cdevents_otel_bridge.Prelude.Int.{ℤ, pos, negsuc}
use cdevents_otel_bridge.Strconv.{atoi}
use cdevents_otel_bridge.Time.{Time}
use cdevents_otel_bridge.Dict
use cdevents_otel_bridge.Api.Queries.{clamp_limit, limit_of, max_list_limit}

IsWithin : ℕ → Type 0
IsWithin limit = (1 ≤ limit) × (limit ≤ 100)

clamp-IsWithin : (n : ℕ) → IsWithin (if ltb max_list_limit (suc n) then max_list_limit else suc n)
unfolding IsWithin
clamp-IsWithin n = (ground arith, ground arith)

clamp_limit-IsWithin :
    (parsed : Option ℤ) (limit : ℕ) → clamp_limit parsed ≡ some limit → IsWithin limit
clamp_limit-IsWithin none limit h = absurd (none_not_some h)
clamp_limit-IsWithin (some (negsuc n)) limit h = absurd (none_not_some h)
clamp_limit-IsWithin (some (pos zero)) limit h = absurd (none_not_some h)
clamp_limit-IsWithin (some (pos (suc n))) limit h = rw (sym (some_inj h)) (clamp-IsWithin n)

-- The limit of a listing that is not refused is between 1 and 100.
pub limit_of-bounds :
    (text : String) (limit : ℕ) → limit_of text ≡ some limit → (1 ≤ limit) × (limit ≤ 100)
unfolding limit_of IsWithin
limit_of-bounds text limit h = elim (Bool-cases (is_empty text)) [
  | inl e ↦ rw (sym (some_inj (rw e at h))) (omega arith, omega arith)
  | inr e ↦ clamp_limit-IsWithin (atoi text) limit (rw e at h)
]
