-- ===== src/Policy/Floor.antt =====
-- policy/floor.py: the limits that no model can invade.
pub mod Limits
use ynab_agent.Common.{ℕ, leb, Option, none, some, ◌||◌, if◌then◌else◌}
use ynab_agent.Domain.Money
use ynab_agent.Domain.Money.{Money}

pub data FloorVerdict : Type 0 where
  allow force_human trip_breaker : FloorVerdict

pub record FloorPolicy : Type 0 where
  pub per_txn_ceiling : Money
  pub per_run_cap : ℕ
  pub per_day_cap : ℕ
  pub per_move_ceiling : Money
  pub moves_per_day_cap : ℕ

pub record AutoActionCounters : Type 0 where
  pub this_run : ℕ
  pub today : ℕ

-- `check_floor`
unfoldable pub check_floor : Option Money → AutoActionCounters → FloorPolicy → FloorVerdict
check_floor none counters policy = FloorVerdict.force_human
check_floor (some amount) counters policy =
    if Money.lt policy.per_txn_ceiling (Money.magnitude amount)
    then FloorVerdict.force_human
    else if leb policy.per_run_cap counters.this_run || leb policy.per_day_cap counters.today
    then FloorVerdict.trip_breaker
    else FloorVerdict.allow

-- `check_budget_move_floor`
unfoldable pub check_budget_move_floor : Money → AutoActionCounters → FloorPolicy → FloorVerdict
check_budget_move_floor amount counters policy =
    if Money.lt policy.per_move_ceiling (Money.magnitude amount)
    then FloorVerdict.force_human
    else if leb policy.moves_per_day_cap counters.today
    then FloorVerdict.trip_breaker
    else FloorVerdict.allow
