-- ===== src/Lifecycle/Writes.antt =====
-- What a transition writes to YNAB and what it teaches.
use ynab_agent.Common.{◌≡◌, Bool, true, false, List, [], ◌∷◌, ok, arith, String}
use ynab_agent.Domain.Ids.{Datetime}
use ynab_agent.Domain.Proposal.{Decision}
use ynab_agent.Domain.Transaction.{AutoApplied, Transaction, auto_applied, applied}
use ynab_agent.Domain.Event.{
  LifecycleEvent, enriched, answer_received, write_verified, converged, override_detected,
}
use ynab_agent.Domain.Effect.{
  Effect, FeedRuleLearning, commit_to_ynab, feed_rule_learning, record_auto_action,
}
use ynab_agent.Lifecycle.{advance}
use ynab_agent.Lifecycle.Values.{LifecyclePolicy, Transition, advanced}

-- The decisions that a list of effects commits, in order.
abbrev pub commits : List Effect → List Decision
commits [] = []
commits (commit_to_ynab d ∷ es) = d ∷ commits es
commits (_ ∷ es) = commits es

-- The events that a list of effects feeds to rule learning.
abbrev pub lessons : List Effect → List FeedRuleLearning
lessons [] = []
lessons (feed_rule_learning f ∷ es) = f ∷ lessons es
lessons (_ ∷ es) = lessons es

-- The transactions that a list of effects counts against the circuit breaker.
abbrev pub auto_actions : List Effect → List String
auto_actions [] = []
auto_actions (record_auto_action id ∷ es) = id ∷ auto_actions es
auto_actions (_ ∷ es) = auto_actions es

-- The decision of a state whose write has not been verified yet.
abbrev pub unverified : Transaction → List Decision
unverified (auto_applied t) = t.decision ∷ []
unverified (applied t) = t.decision ∷ []
unverified _ = []

abbrev pub is_auto_applied : Transaction → List String
is_auto_applied (auto_applied t) = t.core.snapshot.ynab_id ∷ []
is_auto_applied _ = []

module _ (now : Datetime) (policy : LifecyclePolicy) (txn : Transaction) where
  -- An advanced transition commits exactly the decision of the unverified state it enters: no
  -- write goes without its verification, and no state claims a write that was not sent.
  pub commits-advance :
      (event : LifecycleEvent) {t : Transition}
      → advance now policy txn event ≡ ok t
      → t.kind ≡ advanced
      → commits t.effects ≡ unverified t.next
  unfolding advance
  commits-advance event h k = ground arith

  -- The circuit breaker counts each automatic write, once and under its own id, and nothing else.
  pub auto_actions-advance :
      (event : LifecycleEvent) {t : Transition}
      → advance now policy txn event ≡ ok t
      → t.kind ≡ advanced
      → auto_actions t.effects ≡ is_auto_applied t.next
  unfolding advance
  auto_actions-advance event h k = ground arith

-- The events that carry a decision, or the verdict on one.
abbrev pub is_decided : LifecycleEvent → Bool
is_decided (enriched _) = true
is_decided (answer_received _) = true
is_decided (write_verified _) = true
is_decided (converged _) = true
is_decided (override_detected _) = true
is_decided _ = false

-- Silence never acts: a deadline, a snapshot, a raw message or a question to the owner writes
-- nothing to YNAB, teaches nothing and counts no automatic action.
pub silence_is_safe :
    (now : Datetime) (policy : LifecyclePolicy) (txn : Transaction) (event : LifecycleEvent)
    {t : Transition}
    → is_decided event ≡ false
    → advance now policy txn event ≡ ok t
    → (commits t.effects ≡ []) × (lessons t.effects ≡ []) × (auto_actions t.effects ≡ [])
unfolding advance
silence_is_safe now policy txn event s h = ground arith

-- An automatic write never confirms itself: whatever its verification says, nothing is taught.
pub auto_applied-lessons :
    (now : Datetime) (policy : LifecyclePolicy) (txn : AutoApplied) (event : LifecycleEvent)
    {t : Transition}
    → advance now policy (auto_applied txn) event ≡ ok t
    → lessons t.effects ≡ []
unfolding advance
auto_applied-lessons now policy txn event h = ground arith
