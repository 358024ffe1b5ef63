-- ===== src/Join/Settling.antt =====
-- No receipt waits for ever: what two runs do once its time to live is over.
use ynab_agent.Common.{◌≤◌, ◌≡◌, Bool, true, false, length, Result, raise, ok, ◌>>=◌, arith}
use ynab_agent.Domain.Ids.{Datetime, Timedelta}
use ynab_agent.Domain.Enums.{ReceiptStatus, parked, matched, expired}
use ynab_agent.Domain.Signal.{Receipt}
use ynab_agent.Join.{
  MatchOutcome, ambiguous, plan_join, is_overdue, after_action, resulting_status, join_run,
}

-- A verdict that the model's constructors let through.
abbrev pub IsValidOutcome : MatchOutcome → Type 0
IsValidOutcome (ambiguous candidates) = 2 ≤ length candidates
IsValidOutcome _ = Unit

abbrev pub is_settled : ReceiptStatus → Bool
is_settled matched = true
is_settled expired = true
is_settled _ = false

-- The call returns a receipt that is matched or expired.
abbrev pub Settles : Result Receipt → Type 0
Settles (ok receipt) = is_settled receipt.status ≡ true
Settles (raise _) = ⊥

abbrev is_parked : ReceiptStatus → Bool
is_parked parked = true
is_parked _ = false

-- The first overdue run at least asks.
abbrev Asks : Receipt → Result Receipt → Type 0
Asks receipt (ok once) = (once.parked_at ≡ receipt.parked_at) × (is_parked once.status ≡ false)
Asks receipt (raise _) = ⊥

join_run-Asks :
    (ttl : Timedelta) (receipt : Receipt) (outcome : MatchOutcome) (now : Datetime)
    → IsValidOutcome outcome
    → is_overdue receipt now ttl ≡ true
    → Asks receipt (join_run ttl receipt outcome now)
unfolding join_run plan_join after_action resulting_status
join_run-Asks ttl receipt outcome now v o = rw o (ground arith)

join_run-Settles :
    (ttl : Timedelta) (receipt : Receipt) (outcome : MatchOutcome) (now : Datetime)
    → IsValidOutcome outcome
    → is_overdue receipt now ttl ≡ true
    → is_parked receipt.status ≡ false
    → Settles (join_run ttl receipt outcome now)
unfolding join_run plan_join after_action resulting_status
join_run-Settles ttl receipt outcome now v o p = rw o (ground arith)

is_overdue_cong :
    (a b : Receipt) (now : Datetime) (ttl : Timedelta)
    → b.parked_at ≡ a.parked_at
    → is_overdue a now ttl ≡ true
    → is_overdue b now ttl ≡ true
unfolding is_overdue
is_overdue_cong a b now ttl e o = rw e o

settle_after :
    (receipt : Receipt) (first : Result Receipt) (next : Receipt → Result Receipt)
    → Asks receipt first
    → ((once : Receipt) → Asks receipt (ok once) → Settles (next once))
    → Settles (first >>= next)
settle_after receipt (raise _) next a h = elim a [ ]
settle_after receipt (ok once) next a h = h once a

-- No receipt waits for ever: whatever two valid verdicts the model gives, two runs after the
-- receipt's time to live return, and leave it matched or expired.
pub overdue-Settles :
    (ttl : Timedelta) (receipt : Receipt) (first second : MatchOutcome) (now later : Datetime)
    → IsValidOutcome first
    → IsValidOutcome second
    → is_overdue receipt now ttl ≡ true
    → is_overdue receipt later ttl ≡ true
    → Settles (do once ← join_run ttl receipt first now; join_run ttl once second later)
overdue-Settles ttl receipt first second now later v w o p =
    settle_after receipt (join_run ttl receipt first now) (λ once. join_run ttl once second later)
      (join_run-Asks ttl receipt first now v o)
      (λ once a.
        join_run-Settles ttl once second later w (is_overdue_cong receipt once later ttl a.0 p) a.1)
