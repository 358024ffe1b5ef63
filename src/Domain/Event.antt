-- ===== src/Domain/Event.antt =====
-- domain/events.py: the decided inputs that drive the state machine.
use ynab_agent.Common.{String, Bool}
use ynab_agent.Domain.Proposal.{Proposal, Decision}
use ynab_agent.Domain.Signal.{InboundSignal}
use ynab_agent.Domain.Transaction.{YnabSnapshot}

pub data VerifyOutcome : Type 0 where
  match could_not_confirm diverged : VerifyOutcome

pub data EnrichmentOutcome : Type 0 where
  auto_apply : Decision → EnrichmentOutcome
  ask_human : Proposal → EnrichmentOutcome

-- `diverged` has the summary of what YNAB holds, then of what was asked.
pub data ConvergeOutcome : Type 0 where
  reapplied : Decision → ConvergeOutcome
  no_change : ConvergeOutcome
  could_not_confirm : ConvergeOutcome
  diverged : String → String → ConvergeOutcome
  needs_human : String → ConvergeOutcome

-- The flag of `snapshot_materialized` is `hold_for_amazon`.
pub data LifecycleEvent : Type 0 where
  snapshot_materialized : YnabSnapshot → Bool → LifecycleEvent
  snapshot_unavailable : LifecycleEvent
  inbound_received : InboundSignal → LifecycleEvent
  hold_resolved : YnabSnapshot → LifecycleEvent
  hold_deadline_reached : LifecycleEvent
  enriched : EnrichmentOutcome → LifecycleEvent
  answer_received : Decision → LifecycleEvent
  clarify_requested : String → LifecycleEvent
  patience_expired : LifecycleEvent
  write_verified : VerifyOutcome → LifecycleEvent
  converged : ConvergeOutcome → LifecycleEvent
  archive_window_reached : LifecycleEvent
  override_detected : Decision → LifecycleEvent
