-- ===== src/Policy/AutoActions.antt =====
-- policy/auto_action_ledger.py: the circuit breaker's memory.
pub mod Breaker
pub mod Writes
use ynab_agent.Common.{
  ℕ, String, String-discrete, Bool, not, ◌&&◌, List, [], ◌∷◌, ◌++◌, filter, count, test,
}
use ynab_agent.Common.Int.{pos, ◌-ℤ◌, ltb_ℤ}
use ynab_agent.Domain.Ids.{Datetime, Timedelta}
use ynab_agent.Policy.Floor.{AutoActionCounters}

-- One hour and one day, in microseconds.
abbrev pub run_window : Timedelta
run_window = pos 3_600_000_000

abbrev pub day_window : Timedelta
day_window = pos 86_400_000_000

pub record AutoActionEntry : Type 0 where
  pub ynab_id : String
  pub at : Datetime

pub record AutoActionLedgerState : Type 0 where
  pub entries : List AutoActionEntry

-- `now - entry.at < window`
unfoldable pub is_recent : Datetime → Timedelta → AutoActionEntry → Bool
is_recent now window entry = ltb_ℤ (now -ℤ entry.at) window

-- `entry.ynab_id == ynab_id`
unfoldable pub has_id : String → AutoActionEntry → Bool
has_id ynab_id entry = test (String-discrete entry.ynab_id ynab_id)

-- `record`
unfoldable pub record_action :
    AutoActionLedgerState → String → Datetime → Timedelta → AutoActionLedgerState
record_action state ynab_id now retention = record {
  entries =
      filter (λ entry. not (has_id ynab_id entry) && is_recent now retention entry) state.entries
      ++ record { ynab_id = ynab_id; at = now } ∷ [];
}

-- `counters`
unfoldable pub counters :
    AutoActionLedgerState → Datetime → Timedelta → Timedelta → AutoActionCounters
counters state now run day = record {
  this_run = count (is_recent now run) state.entries;
  today = count (is_recent now day) state.entries;
}
