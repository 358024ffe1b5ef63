-- ===== src/Lifecycle/Validity.antt =====
-- The legal states, and when `advance` raises.
use ynab_agent.Common.{
  ◌≡◌, refl, ◌↔◌, true, false, String, Option, none, some, List, [], ◌∷◌, Result, ok, raise, ◌>>=◌,
  arith,
}
use mathlib.Core.Path.{subst}
use ynab_agent.Domain.Ids.{Datetime}
use ynab_agent.Domain.Enums.{agent, RevisingOrigin}
use ynab_agent.Domain.Proposal.{Decision}
use ynab_agent.Domain.Transaction.{
  TxnCore, Transaction, enriching, auto_applied, awaiting_human, applied, opened, revising,
  archived, is_reconciled, is_categorized, is_unbalanced, born,
}
use ynab_agent.Domain.Event.{
  LifecycleEvent, enriched, auto_apply, answer_received, converged, reapplied, override_detected,
}
use ynab_agent.Lifecycle.{advance, run}
use ynab_agent.Lifecycle.Values.{LifecyclePolicy, Transition}

-- What a post-write state promises of its decision.
abbrev pub Committed : TxnCore → Decision → Type 0
Committed core d = (d.approved ≡ true) × (is_unbalanced d.allocation core.snapshot.amount ≡ false)

-- A revision of an applied transaction keeps the decision that it revises, and no other has one.
abbrev pub HasPrior : TxnCore → RevisingOrigin → Option Decision → Type 0
HasPrior core RevisingOrigin.applied (some d) = Committed core d
HasPrior core RevisingOrigin.lapsed none = Unit
HasPrior core _ _ = ⊥

-- An archived transaction that was never applied is categorized.
abbrev pub Closed : TxnCore → Option Decision → Type 0
Closed core none = is_categorized core.snapshot ≡ true
Closed core (some d) = Unit

abbrev pub IsValid : Transaction → Type 0
IsValid (auto_applied t) = (t.decision.decided_by ≡ agent) × Committed t.core t.decision
IsValid (applied t) = Committed t.core t.decision
IsValid (opened t) = Committed t.core t.decision
IsValid (revising t) = HasPrior t.core t.origin t.prior
IsValid (archived t) = (is_reconciled t.core.snapshot ≡ true) × Closed t.core t.final
IsValid _ = Unit

-- What an event must carry where the transition writes its decision into a state.
abbrev pub Acceptable : Transaction → LifecycleEvent → Type 0
Acceptable (enriching t) (enriched (auto_apply d)) = (d.decided_by ≡ agent) × Committed t.core d
Acceptable (awaiting_human t) (answer_received d) = Committed t.core d
Acceptable (revising t) (converged (reapplied d)) = Committed t.core d
Acceptable (opened t) (override_detected d) =
    is_reconciled t.core.snapshot ≡ false → Committed t.core d
Acceptable _ _ = Unit

abbrev pub Returns {ℓ} : {A : Type ℓ} → Result A → Type 0
Returns (ok _) = Unit
Returns (raise _) = ⊥

-- Whatever the event, a legal transaction is only ever advanced to a legal one.
pub advance-IsValid :
    (now : Datetime) (policy : LifecyclePolicy) (txn : Transaction) (event : LifecycleEvent)
    {t : Transition}
    → IsValid txn
    → advance now policy txn event ≡ ok t
    → IsValid t.next
unfolding advance
advance-IsValid now policy txn event v h = ground arith

-- `advance` returns exactly for the events that carry what the new state requires.
pub advance-Returns_iff :
    (now : Datetime) (policy : LifecyclePolicy) (txn : Transaction) (event : LifecycleEvent)
    → IsValid txn
    → Returns (advance now policy txn event) ↔ Acceptable txn event
unfolding advance
advance-Returns_iff now policy txn event v = ground arith

-- What a run's first step returned, where the run returned.
first_step :
    (called : Result Transition) (rest : Transition → Result Transaction) {end : Transaction}
    → called >>= rest ≡ ok end
    → (t : Transition) × (called ≡ ok t) × (rest t ≡ ok end)
first_step (raise _) rest h = cc
first_step (ok t) rest h = (t, refl, h)

-- A property of transactions that every returned step keeps holds at the end of a run.
pub run_induction :
    (P : Transaction → Type 0) (policy : LifecyclePolicy)
    → ((now : Datetime) (txn : Transaction) (event : LifecycleEvent) (t : Transition)
        → P txn
        → advance now policy txn event ≡ ok t
        → P t.next)
    → (events : List (Datetime × LifecycleEvent)) (txn : Transaction) {end : Transaction} → P txn
    → run policy txn events ≡ ok end
    → P end
unfolding run
run_induction P policy keep [] txn {end} p h = subst P (cc) p
run_induction P policy keep ((now, event) ∷ events) txn p h =
    let (t, stepped, rest) =
      first_step (advance now policy txn event) (λ t. run policy t.next events) h in
    run_induction P policy keep events t.next (keep now txn event t p stepped) rest

-- From birth on, whatever events arrive and whenever, the transaction of a run that does not raise
-- is legal.
pub run-IsValid :
    (policy : LifecyclePolicy) (ynab_id : String) (thread_id : Option String)
    (events : List (Datetime × LifecycleEvent)) {end : Transaction}
    → run policy (born ynab_id thread_id) events ≡ ok end
    → IsValid end
unfolding born
run-IsValid policy ynab_id thread_id events h =
    run_induction IsValid policy (λ now txn event t v e. advance-IsValid now policy txn event v e)
      events _ tt h
