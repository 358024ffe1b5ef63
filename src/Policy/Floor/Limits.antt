-- ===== src/Policy/Floor/Limits.antt =====
-- When the hard floor lets an automatic write through.
use ynab_agent.Common.{◌<◌, ◌≡◌, ◌↔◌, Option, none, some, arith}
use ynab_agent.Common.Int.{◌≤ℤ◌, abs}
use ynab_agent.Domain.Money
use ynab_agent.Domain.Money.{Money}
use ynab_agent.Policy.Floor.{
  FloorVerdict, FloorPolicy, AutoActionCounters, check_floor, check_budget_move_floor,
}

-- The absolute amount is at most the ceiling.
abbrev pub Within : Money → Money → Type 0
Within amount ceiling = abs amount.milliunits ≤ℤ ceiling.milliunits

-- The amount could be read, and is within the ceiling.
abbrev pub ReadableWithin : Option Money → Money → Type 0
ReadableWithin none ceiling = ⊥
ReadableWithin (some a) ceiling = Within a ceiling

-- The floor allows a write exactly where the amount is readable and its magnitude within the
-- ceiling, and both the run and the day have room for one more.
pub check_floor_allow_iff :
    (amount : Option Money) (c : AutoActionCounters) (p : FloorPolicy)
    → (check_floor amount c p ≡ FloorVerdict.allow) ↔ (
        ReadableWithin amount p.per_txn_ceiling
        × (c.this_run < p.per_run_cap)
        × (c.today < p.per_day_cap))
unfolding check_floor Money.lt Money.magnitude
check_floor_allow_iff amount c p = ground arith

-- The breaker never hides an amount that a human must see: an over-ceiling write is sent to a
-- human whatever the counters are, and one that trips the breaker is within the ceiling.
pub ceiling_comes_first :
    (a : Money) (c : AutoActionCounters) (p : FloorPolicy)
    → (check_floor (some a) c p ≡ FloorVerdict.force_human → ¬ Within a p.per_txn_ceiling)
      × (check_floor (some a) c p ≡ FloorVerdict.trip_breaker → Within a p.per_txn_ceiling)
unfolding check_floor Money.lt Money.magnitude
ceiling_comes_first a c p = ground arith

-- A budget move that a confirmation allows is within its ceiling, with room left in the day.
pub check_budget_move_floor_allow_iff :
    (a : Money) (c : AutoActionCounters) (p : FloorPolicy)
    → (check_budget_move_floor a c p ≡ FloorVerdict.allow)
      ↔ (Within a p.per_move_ceiling × (c.today < p.moves_per_day_cap))
unfolding check_budget_move_floor Money.lt Money.magnitude
check_budget_move_floor_allow_iff a c p = ground arith
