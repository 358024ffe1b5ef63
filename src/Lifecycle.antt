-- ===== src/Lifecycle.antt =====
-- domain/state_machine.py: the transaction's lifecycle as a pure step function.
pub mod Values
pub mod Verify
pub mod Handlers
pub mod Validity
pub mod Graph
pub mod Writes
pub mod Archiving
use ynab_agent.Common.{Result, ok, raise, List, [], ◌∷◌, ◌>>=◌}
use ynab_agent.Domain.Ids.{Datetime}
use ynab_agent.Domain.Transaction.{
  Transaction, discovered, hold_amazon, enriching, auto_applied, awaiting_human, applied, opened,
  lapsed, revising, archived, enter_auto_applied, enter_applied, enter_open, enter_archived,
}
use ynab_agent.Domain.Event.{LifecycleEvent}
use Values.{LifecyclePolicy, Transition, reject}
use Handlers.{
  from_discovered, from_hold_amazon, from_enriching, from_auto_applied, from_awaiting_human,
  from_applied, from_open, from_lapsed, from_revising, from_archived,
}

-- `advance`
unfoldable pub advance :
    Datetime → LifecyclePolicy → Transaction → LifecycleEvent → Result Transition
unfolding from_discovered from_hold_amazon from_enriching from_auto_applied from_awaiting_human
    from_applied from_open from_lapsed from_revising from_archived reject enter_auto_applied
    enter_applied enter_open enter_archived
advance now policy (discovered txn) event = ok (from_discovered now policy txn event)
advance now policy (hold_amazon txn) event = ok (from_hold_amazon txn event)
advance now policy (enriching txn) event = from_enriching now policy txn event
advance now policy (auto_applied txn) event = from_auto_applied now policy txn event
advance now policy (awaiting_human txn) event = from_awaiting_human now policy txn event
advance now policy (applied txn) event = from_applied now policy txn event
advance now policy (opened txn) event = from_open txn event
advance now policy (lapsed txn) event = from_lapsed txn event
advance now policy (revising txn) event = from_revising now policy txn event
advance now policy (archived txn) event = ok (from_archived txn event)

-- What the driver keeps of a sequence of events, each with the time at which it is handled: the
-- transaction after the last.
unfoldable pub run :
    LifecyclePolicy → Transaction → List (Datetime × LifecycleEvent) → Result Transaction
run policy txn [] = ok txn
run policy txn ((now, event) ∷ events) = do
  t ← advance now policy txn event
  run policy t.next events
