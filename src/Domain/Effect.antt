-- ===== src/Domain/Effect.antt =====
-- domain/effects.py: what the spine does after a transition.
use ynab_agent.Common.{String, Option, List}
use ynab_agent.Domain.Ids.{Datetime}
use ynab_agent.Domain.Proposal.{Decision}
use ynab_agent.Domain.Signal.{InboundSignal}

pub data MessagePurpose : Type 0 where
  proposal fyi confirm clarify handoff revise_summary : MessagePurpose
  possibly_inconsistent diverged_readback archive_notice override_notice : MessagePurpose

pub data TimerKind : Type 0 where
  amazon_hold patience archive : TimerKind

pub data RuleLearningKind : Type 0 where
  confirm correct : RuleLearningKind

pub record FeedRuleLearning : Type 0 where
  pub event : RuleLearningKind
  pub payee : String
  pub decision : Option Decision
  pub prior : Option Decision

-- `send_message` has its purpose, detail and decision.
pub data Effect : Type 0 where
  open_thread : Effect
  send_message : MessagePurpose → Option String → Option Decision → Effect
  commit_to_ynab : Decision → Effect
  set_timer : TimerKind → Datetime → Effect
  cancel_timer : TimerKind → Effect
  feed_rule_learning : FeedRuleLearning → Effect
  record_auto_action : String → Effect
  replay_buffered : List InboundSignal → Effect
  close_thread : Effect
