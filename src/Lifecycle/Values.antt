-- ===== src/Lifecycle/Values.antt =====
-- domain/config.py, and the first part of domain/state_machine.py: the timer windows, and the
-- value that an `advance` call returns.
use ynab_agent.Common.{String, ◌<>◌, Option, none, some, List, []}
use ynab_agent.Domain.Ids.{Timedelta}
use ynab_agent.Domain.Enums.{TxnState}
use ynab_agent.Domain.Transaction.{
  Transaction, discovered, hold_amazon, enriching, auto_applied, awaiting_human, applied, opened,
  lapsed, revising, archived,
}
use ynab_agent.Domain.Event.{
  LifecycleEvent, snapshot_materialized, snapshot_unavailable, inbound_received, hold_resolved,
  hold_deadline_reached, enriched, answer_received, clarify_requested, patience_expired,
  write_verified, converged, archive_window_reached, override_detected,
}
use ynab_agent.Domain.Effect.{Effect}

pub record LifecyclePolicy : Type 0 where
  pub patience_window : Timedelta
  pub amazon_hold : Timedelta
  pub archive_window : Timedelta

pub data TransitionKind : Type 0 where
  advanced ignored rejected : TransitionKind

pub record Transition : Type 0 where
  pub kind : TransitionKind
  pub next : Transaction
  pub effects : List Effect
  pub reason : Option String

-- `txn.state`
abbrev pub state : Transaction → TxnState
state (discovered _) = TxnState.discovered
state (hold_amazon _) = TxnState.hold_amazon
state (enriching _) = TxnState.enriching
state (auto_applied _) = TxnState.auto_applied
state (awaiting_human _) = TxnState.awaiting_human
state (applied _) = TxnState.applied
state (opened _) = TxnState.opened
state (lapsed _) = TxnState.lapsed
state (revising _) = TxnState.revising
state (archived _) = TxnState.archived

-- The enum's value.
state_value : TxnState → String
state_value TxnState.discovered = "discovered"
state_value TxnState.hold_amazon = "hold_amazon"
state_value TxnState.enriching = "enriching"
state_value TxnState.auto_applied = "auto_applied"
state_value TxnState.awaiting_human = "awaiting_human"
state_value TxnState.applied = "applied"
state_value TxnState.opened = "open"
state_value TxnState.lapsed = "lapsed"
state_value TxnState.revising = "revising"
state_value TxnState.archived = "archived"

-- `type(event).__name__`
event_name : LifecycleEvent → String
event_name (snapshot_materialized _ _) = "SnapshotMaterialized"
event_name snapshot_unavailable = "SnapshotUnavailable"
event_name (inbound_received _) = "InboundReceived"
event_name (hold_resolved _) = "HoldResolved"
event_name hold_deadline_reached = "HoldDeadlineReached"
event_name (enriched _) = "Enriched"
event_name (answer_received _) = "AnswerReceived"
event_name (clarify_requested _) = "ClarifyRequested"
event_name patience_expired = "PatienceExpired"
event_name (write_verified _) = "WriteVerified"
event_name (converged _) = "Converged"
event_name archive_window_reached = "ArchiveWindowReached"
event_name (override_detected _) = "OverrideDetected"

-- `_advanced`
abbrev pub advance_to : Transaction → List Effect → Transition
advance_to nxt effects = record { kind = advanced; next = nxt; effects = effects; reason = none }

-- `_ignored`
abbrev pub ignore : Transaction → String → Transition
ignore txn reason = record { kind = ignored; next = txn; effects = []; reason = some reason }

reject_reason : Transaction → LifecycleEvent → String
reject_reason txn event = event_name event <> (" is not valid in " <> state_value (state txn))

-- `_rejected`
unfoldable pub reject : Transaction → LifecycleEvent → Transition
unfolding reject_reason event_name state_value
reject txn event = record {
  kind = rejected;
  next = txn;
  effects = [];
  reason = some (reject_reason txn event);
}
