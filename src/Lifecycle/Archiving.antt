-- ===== src/Lifecycle/Archiving.antt =====
-- What `advance` can do to the snapshot, and so which transactions can be archived.
use ynab_agent.Common.{◌≡◌, Bool, true, false, Option, none, some, List, ok, arith}
use ynab_agent.Domain.Ids.{Datetime}
use ynab_agent.Domain.Transaction.{
  YnabSnapshot, Transaction, discovered, hold_amazon, enriching, auto_applied, awaiting_human,
  applied, opened, lapsed, revising, archived, is_reconciled,
}
use ynab_agent.Domain.Event.{LifecycleEvent}
use ynab_agent.Lifecycle.{advance, run}
use ynab_agent.Lifecycle.Validity.{run_induction}
use ynab_agent.Lifecycle.Values.{LifecyclePolicy, Transition}

-- The snapshot of a state past the Amazon hold.
abbrev pub settled_snapshot : Transaction → Option YnabSnapshot
settled_snapshot (discovered _) = none
settled_snapshot (hold_amazon _) = none
settled_snapshot (enriching t) = some t.core.snapshot
settled_snapshot (auto_applied t) = some t.core.snapshot
settled_snapshot (awaiting_human t) = some t.core.snapshot
settled_snapshot (applied t) = some t.core.snapshot
settled_snapshot (opened t) = some t.core.snapshot
settled_snapshot (lapsed t) = some t.core.snapshot
settled_snapshot (revising t) = some t.core.snapshot
settled_snapshot (archived t) = some t.core.snapshot

abbrev pub is_archived : Transaction → Bool
is_archived (archived _) = true
is_archived _ = false

-- Past the Amazon hold no event renews the snapshot.
pub advance-settled_snapshot :
    (now : Datetime) (policy : LifecyclePolicy) (txn : Transaction) (event : LifecycleEvent)
    {t : Transition} {snap : YnabSnapshot}
    → settled_snapshot txn ≡ some snap
    → advance now policy txn event ≡ ok t
    → settled_snapshot t.next ≡ some snap
unfolding advance
advance-settled_snapshot now policy txn event s h = ground arith

abbrev Unarchivable : YnabSnapshot → Transaction → Type 0
Unarchivable snap txn = (settled_snapshot txn ≡ some snap) × (is_archived txn ≡ false)

advance-Unarchivable :
    (now : Datetime) (policy : LifecyclePolicy) (txn : Transaction) (event : LifecycleEvent)
    {t : Transition} {snap : YnabSnapshot}
    → is_reconciled snap ≡ false
    → Unarchivable snap txn
    → advance now policy txn event ≡ ok t
    → is_archived t.next ≡ false
unfolding advance
advance-Unarchivable now policy txn event r u h = ground arith

-- A transaction that leaves the Amazon hold with an unreconciled snapshot is never archived,
-- whatever events follow and however long it waits: the archive guard reads the snapshot taken at
-- the start, which no event renews.
pub unreconciled_never_archived :
    (policy : LifecyclePolicy) (snap : YnabSnapshot) (events : List (Datetime × LifecycleEvent))
    (txn : Transaction) {end : Transaction}
    → is_reconciled snap ≡ false
    → settled_snapshot txn ≡ some snap
    → is_archived txn ≡ false
    → run policy txn events ≡ ok end
    → is_archived end ≡ false
unreconciled_never_archived policy snap events txn r s a h =
    (run_induction (Unarchivable snap) policy
      (λ now txn event t u e. (
        advance-settled_snapshot now policy txn event u.0 e,
        advance-Unarchivable now policy txn event r u e,
      ))
      events txn (s, a) h).1
