-- ===== src/Examples/Alert.antt =====
-- Alerts at concrete failures.
use ynab_agent.Common.{List, [], ◌∷◌, count, ◌≤◌, arith}
use ynab_agent.Common.Int.{pos}
use ynab_agent.Domain.Ids.{Datetime}
use ynab_agent.Alert.{
  AlertEntry, default_cooldown, default_rate_window, default_rate_cap, is_within, notified,
}
use ynab_agent.Alert.Spacing.{InOrder, Spaced, no_alerts, notified-Spaced_capped}

-- The same transaction fails twice in an hour, and another one between.
abbrev failures : List AlertEntry
failures =
    record { key = "t1"; at = pos 0 }
    ∷ record { key = "t2"; at = pos 1_000_000 }
    ∷ record { key = "t1"; at = pos 2_000_000 }
    ∷ []

abbrev an_hour_later : Datetime
an_hour_later = pos 3_600_000_000

failures-InOrder : InOrder (pos 0) failures
failures-InOrder = (omega arith, (omega arith, (omega arith, tt)))

notified-Spaced_capped_example :
    Spaced default_cooldown
      (notified default_cooldown default_rate_window default_rate_cap no_alerts failures)
    × (count
          (is_within an_hour_later default_rate_window)
          (notified default_cooldown default_rate_window default_rate_cap no_alerts failures)
        ≤ default_rate_cap)
notified-Spaced_capped_example =
    notified-Spaced_capped default_cooldown default_rate_window default_rate_cap (pos 0)
      an_hour_later failures (omega arith) failures-InOrder (omega arith)
      (omega arith, (omega arith, (omega arith, tt)))
