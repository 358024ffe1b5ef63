-- ===== src/Policy/AutoActions/Breaker.antt =====
-- The circuit breaker binds: what the ledger remembers, and the bound on automatic writes.
use ynab_agent.Common.{
  suc, ◌+◌, ◌≤◌, ◌≡◌, String, Bool, true, not, ◌&&◌, Option, List, filter, count, count-append_one,
  count_none, count-filter_le, count-filter_eq, count_mono, one_if, arith,
}
use ynab_agent.Common.Int.{pos, ◌≤ℤ◌, ◌<ℤ◌, -ℤ_parts}
use ynab_agent.Domain.Ids.{Datetime, Timedelta}
use ynab_agent.Domain.Money.{Money}
use ynab_agent.Policy.Floor.{FloorVerdict, FloorPolicy, check_floor}
use ynab_agent.Policy.Floor.Limits.{check_floor_allow_iff}
use ynab_agent.Policy.AutoActions.{
  AutoActionEntry, AutoActionLedgerState, is_recent, has_id, record_action, counters, run_window,
  day_window,
}

is_recent_now :
    (now : Datetime) (w : Timedelta) (ynab_id : String)
    → pos 0 <ℤ w
    → is_recent now w (record { ynab_id = ynab_id; at = now }) ≡ true
unfolding is_recent
is_recent_now now w ynab_id h = ground (arith, -ℤ_parts now now)

-- What is recent stays so when read earlier.
is_recent_earlier :
    (now later : Datetime) (w : Timedelta) (e : AutoActionEntry)
    → now ≤ℤ later
    → is_recent later w e ≡ true
    → is_recent now w e ≡ true
unfolding is_recent
is_recent_earlier now later w e h r = ground (arith, -ℤ_parts now e.at, -ℤ_parts later e.at)

has_id_self :
    (ynab_id : String) (now : Datetime)
    → has_id ynab_id (record { ynab_id = ynab_id; at = now }) ≡ true
unfolding has_id
has_id_self ynab_id now = ground arith

pub keeps_one :
    (now later : Datetime) (window retention : Timedelta) (ynab_id : String) (e : AutoActionEntry)
    → now ≤ℤ later
    → window ≤ℤ retention
    → (not (has_id ynab_id e) && is_recent later window e) ≡ true
    → (not (has_id ynab_id e) && is_recent now retention e) ≡ true
unfolding is_recent
keeps_one now later window retention ynab_id e h w k =
    ground (arith, -ℤ_parts now e.at, -ℤ_parts later e.at)

module _ (s : AutoActionLedgerState) (ynab_id : String) (now : Datetime)
    (retention : Timedelta) where
  abbrev pub kept : List AutoActionEntry
  kept = filter (λ e. not (has_id ynab_id e) && is_recent now retention e) s.entries

  abbrev pub entry : AutoActionEntry
  entry = record { ynab_id = ynab_id; at = now }

  pub count-record_action :
      (p : AutoActionEntry → Bool)
      → count p (record_action s ynab_id now retention).entries ≡ count p kept + one_if (p entry)
  unfolding record_action
  count-record_action p = count-append_one p kept entry

  -- Recording a transaction leaves it in the ledger exactly once, however often it was recorded.
  pub count-record_action_self :
      count (has_id ynab_id) (record_action s ynab_id now retention).entries ≡ 1
  count-record_action_self = ground (
    arith,
    count-record_action (has_id ynab_id),
    has_id_self ynab_id now,
    count_none (has_id ynab_id) (λ e. not (has_id ynab_id e) && is_recent now retention e)
        (λ e. ground arith) s.entries,
  )

  -- Pruning forgets nothing that a counter could still read: the other transactions that are
  -- recent at any later time, by any window within the retention, are as many as before.
  pub record_action_keeps_recent :
      (later : Datetime) (window : Timedelta)
      → now ≤ℤ later
      → window ≤ℤ retention
      → count
          (λ e. not (has_id ynab_id e) && is_recent later window e)
          (record_action s ynab_id now retention).entries
        ≡ count (λ e. not (has_id ynab_id e) && is_recent later window e) s.entries
  record_action_keeps_recent later window h w = ground (
    arith,
    count-record_action (λ e. not (has_id ynab_id e) && is_recent later window e),
    has_id_self ynab_id now,
    count-filter_eq (λ e. not (has_id ynab_id e) && is_recent later window e)
        (λ e. not (has_id ynab_id e) && is_recent now retention e)
        (λ e k. keeps_one now later window retention ynab_id e h w k) s.entries,
  )

  record_action_le :
      (p : AutoActionEntry → Bool)
      → count p (record_action s ynab_id now retention).entries ≤ suc (count p s.entries)
  record_action_le p = ground (
    arith,
    count-record_action p,
    count-filter_le p (λ e. not (has_id ynab_id e) && is_recent now retention e) s.entries,
  )

-- Both counters are within their caps.
pub record IsBound (p : FloorPolicy) (s : AutoActionLedgerState) (now : Datetime) : Type 0 where
  pub run_bound : (counters s now run_window day_window).this_run ≤ p.per_run_cap
  pub day_bound : (counters s now run_window day_window).today ≤ p.per_day_cap

-- An automatic write that the floor allows and the ledger records leaves both counters within
-- their caps.
pub record_action-IsBound :
    (p : FloorPolicy) (s : AutoActionLedgerState) (amount : Option Money) (ynab_id : String)
    (now : Datetime) (retention : Timedelta)
    → check_floor amount (counters s now run_window day_window) p ≡ FloorVerdict.allow
    → IsBound p (record_action s ynab_id now retention) now
unfolding counters
record_action-IsBound p s amount ynab_id now retention h =
    let (_, run, day) = (check_floor_allow_iff amount _ p).0 h in
    record {
      run_bound =
          omega (arith, record_action_le s ynab_id now retention (is_recent now run_window));
      day_bound =
          omega (arith, record_action_le s ynab_id now retention (is_recent now day_window));
    }

pub IsBound-later :
    (p : FloorPolicy) (s : AutoActionLedgerState) (now later : Datetime)
    → now ≤ℤ later
    → IsBound p s now
    → IsBound p s later
unfolding counters
IsBound-later p s now later h b = record {
  run_bound = omega (
    arith,
    b.run_bound,
    count_mono (is_recent later run_window) (is_recent now run_window)
        (λ e r. is_recent_earlier now later run_window e h r) s.entries,
  );
  day_bound = omega (
    arith,
    b.day_bound,
    count_mono (is_recent later day_window) (is_recent now day_window)
        (λ e r. is_recent_earlier now later day_window e h r) s.entries,
  );
}
