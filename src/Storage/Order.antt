-- ===== src/Storage/Order.antt =====
-- The two comparisons of interface.go are strict orders, and tie only records with the same key.
use cdevents_otel_bridge.Prelude.{
  ◌≡◌, ◌≤◌, ◌<◌, ◌⊎◌, str_ltb, true, false, arith, eq_iff, str_ltb_asymm, str_ltb_trans,
  str_ltb_neg_trans, str_ltb_connected,
}
use cdevents_otel_bridge.Sorting.{IsOrder}
use cdevents_otel_bridge.Models.{Deployment}
use cdevents_otel_bridge.Cdevents.{StoredEvent}
use cdevents_otel_bridge.Storage.{deployment_less, event_less}

deployment_less_asymm :
    (a b : Deployment) → deployment_less a b ≡ true → deployment_less b a ≡ false
unfolding deployment_less
deployment_less_asymm a b h = ground (
  arith,
  eq_iff a.service b.service,
  eq_iff b.service a.service,
  str_ltb_asymm a.service b.service,
  str_ltb_asymm a.environment b.environment,
)

deployment_less_trans :
    (a b c : Deployment)
    → deployment_less a b ≡ true
    → deployment_less b c ≡ true
    → deployment_less a c ≡ true
unfolding deployment_less
deployment_less_trans a b c h k = ground (
  arith,
  eq_iff a.service b.service,
  eq_iff b.service c.service,
  eq_iff a.service c.service,
  str_ltb_asymm a.service b.service,
  str_ltb_trans a.service b.service c.service,
  str_ltb_trans a.environment b.environment c.environment,
)

deployment_less_neg_trans :
    (a b c : Deployment)
    → deployment_less a b ≡ false
    → deployment_less b c ≡ false
    → deployment_less a c ≡ false
unfolding deployment_less
deployment_less_neg_trans a b c h k = ground (
  arith,
  eq_iff a.service b.service,
  eq_iff b.service c.service,
  eq_iff a.service c.service,
  str_ltb_asymm a.service b.service,
  str_ltb_connected a.service b.service,
  str_ltb_connected b.service c.service,
  str_ltb_neg_trans a.service b.service c.service,
  str_ltb_neg_trans a.environment b.environment c.environment,
)

pub deployment_less-IsOrder : IsOrder deployment_less
deployment_less-IsOrder = record {
  asymm = deployment_less_asymm;
  trans = deployment_less_trans;
  neg_trans = deployment_less_neg_trans;
}

-- Two deployments that tie have the same service and environment.
pub deployment_less_connected :
    (a b : Deployment)
    → deployment_less a b ≡ false
    → deployment_less b a ≡ false
    → (a.service ≡ b.service) × (a.environment ≡ b.environment)
unfolding deployment_less
deployment_less_connected a b h k = ground (
  arith,
  eq_iff a.service b.service,
  eq_iff b.service a.service,
  str_ltb_connected a.service b.service,
  str_ltb_connected a.environment b.environment,
)

event_less_asymm : (a b : StoredEvent) → event_less a b ≡ true → event_less b a ≡ false
unfolding event_less
event_less_asymm a b h = ground (arith, str_ltb_asymm a.id b.id)

event_less_trans :
    (a b c : StoredEvent) → event_less a b ≡ true → event_less b c ≡ true → event_less a c ≡ true
unfolding event_less
event_less_trans a b c h k = ground (arith, str_ltb_trans a.id b.id c.id)

event_less_neg_trans :
    (a b c : StoredEvent) → event_less a b ≡ false → event_less b c ≡ false → event_less a c ≡ false
unfolding event_less
event_less_neg_trans a b c h k = ground (arith, str_ltb_neg_trans a.id b.id c.id)

pub event_less-IsOrder : IsOrder event_less
event_less-IsOrder = record {
  asymm = event_less_asymm;
  trans = event_less_trans;
  neg_trans = event_less_neg_trans;
}

-- Two events that tie have the same id.
pub event_less_connected :
    (a b : StoredEvent) → event_less a b ≡ false → event_less b a ≡ false → a.id ≡ b.id
unfolding event_less
event_less_connected a b h k = ground (arith, str_ltb_connected a.id b.id)

pub deployment_less_newest :
    (a b : Deployment) → deployment_less a b ≡ false → a.deployed_at ≤ b.deployed_at
unfolding deployment_less
deployment_less_newest a b h = ground arith

pub event_less_newest : (a b : StoredEvent) → event_less a b ≡ false → a.timestamp ≤ b.timestamp
unfolding event_less
event_less_newest a b h = ground arith

-- A deployment may stand before another in a list, newest first: it was deployed later, or at the
-- same time by a service that comes first, or in an environment of the service that does not come
-- behind.
abbrev pub IsNewer : Deployment → Deployment → Type 0
IsNewer a b =
    (b.deployed_at < a.deployed_at)
    ⊎ ((a.deployed_at ≡ b.deployed_at)
        × ((str_ltb a.service b.service ≡ true)
            ⊎ ((a.service ≡ b.service) × (str_ltb b.environment a.environment ≡ false))))

pub deployment_less-IsNewer : (a b : Deployment) → deployment_less b a ≡ false → IsNewer a b
unfolding deployment_less
deployment_less-IsNewer a b h = ground (
  arith,
  eq_iff a.service b.service,
  eq_iff b.service a.service,
  str_ltb_connected a.service b.service,
)

-- An event may stand before another in a list, newest first: it is later, or as late and its id
-- does not come behind.
abbrev pub IsNewerEvent : StoredEvent → StoredEvent → Type 0
IsNewerEvent a b =
    (b.timestamp < a.timestamp) ⊎ ((a.timestamp ≡ b.timestamp) × (str_ltb b.id a.id ≡ false))

pub event_less-IsNewerEvent : (a b : StoredEvent) → event_less b a ≡ false → IsNewerEvent a b
unfolding event_less
event_less-IsNewerEvent a b h = ground arith
