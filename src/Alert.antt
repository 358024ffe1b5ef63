-- ===== src/Alert.antt =====
-- alert/ledger.py: which operational alerts go out, and the tail that remembers them.
pub mod Spacing
use ynab_agent.Common.{
  ℕ, String, String-discrete, Bool, true, false, not, ◌&&◌, Option, List, [], ◌∷◌, ◌++◌, filter,
  count, any, ltb, test, if◌then◌else◌,
}
use ynab_agent.Common.Int.{pos, ◌-ℤ◌, ltb_ℤ}
use ynab_agent.Domain.Ids.{Datetime, Timedelta}

-- A day, in microseconds.
abbrev pub default_cooldown : Timedelta
default_cooldown = pos 86_400_000_000

-- An hour.
abbrev pub default_rate_window : Timedelta
default_rate_window = pos 3_600_000_000

abbrev pub default_rate_cap : ℕ
default_rate_cap = 5

pub record AlertEntry : Type 0 where
  pub key : String
  pub at : Datetime

pub record AlertLedgerState : Type 0 where
  pub entries : List AlertEntry

-- `now - entry.at < window`
unfoldable pub is_within : Datetime → Timedelta → AlertEntry → Bool
is_within now window entry = ltb_ℤ (now -ℤ entry.at) window

-- `entry.key == key and now - entry.at < cooldown`
unfoldable pub is_cooling : String → Datetime → Timedelta → AlertEntry → Bool
unfolding is_within
is_cooling key now cooldown entry =
    test (String-discrete entry.key key) && is_within now cooldown entry

-- `should_notify`
unfoldable pub should_notify :
    AlertLedgerState → String → Datetime → Timedelta → Timedelta → ℕ → Bool
unfolding is_cooling
should_notify state key now cooldown rate_window rate_cap =
    if any (is_cooling key now cooldown) state.entries
    then false
    else ltb (count (is_within now rate_window) state.entries) rate_cap

-- `record`
unfoldable pub record_notified : AlertLedgerState → String → Datetime → Timedelta → AlertLedgerState
unfolding is_within
record_notified state key now retention = record {
  entries = filter (is_within now retention) state.entries ++ record { key = key; at = now } ∷ [];
}

-- Failures that call for an alert, one after another: those that are let through are recorded, at
-- the time of the decision, and are the result.
unfoldable pub notified :
    Timedelta → Timedelta → ℕ → AlertLedgerState → List AlertEntry → List AlertEntry
unfolding should_notify
notified cooldown rate_window rate_cap state [] = []
notified cooldown rate_window rate_cap state (failure ∷ failures) =
    let sent =
      notified cooldown rate_window rate_cap (record_notified state failure.key failure.at cooldown)
        failures in
    let silent = notified cooldown rate_window rate_cap state failures in
    if should_notify state failure.key failure.at cooldown rate_window rate_cap
    then failure ∷ sent
    else silent
