-- ===== src/Learn/Workflow.antt =====
-- workflow/registry_workflow.py: the durable registry, one signal at a time. Temporal serializes a
-- workflow's signals, so a history is a list of them, each with the clock's reading and, for the
-- signals that may create a rule, the fresh id that was minted.
pub mod Reachable
use ynab_agent.Common.{String, List, [], ◌∷◌}
use ynab_agent.Domain.Ids.{RuleId, Datetime}
use ynab_agent.Domain.Rule.{RuleMatch, RuleAction}
use ynab_agent.Domain.Effect.{FeedRuleLearning}
use ynab_agent.Learn.Registry.{
  RegistryState, record_learning, bless_rule, bless_by_id, revoke_payee, mark_offered,
}

-- `offer_sent` is the end of `_offer`: the offer's activity is over, and the rule is marked.
pub data RegistrySignal : Type 0 where
  record_feed : FeedRuleLearning → RuleId → RegistrySignal
  bless_command : RuleMatch → RuleAction → RuleId → RegistrySignal
  bless_existing : RuleId → RegistrySignal
  revoke : String → RegistrySignal
  offer_sent : RuleId → RegistrySignal

abbrev pub empty_registry : RegistryState
empty_registry = record { rules = []; audit = [] }

module _ (lower : String → String) where
  -- One signal handler.
  unfoldable pub handle : RegistryState → Datetime → RegistrySignal → RegistryState
  handle state now (record_feed feed next_id) = record_learning state feed now next_id
  handle state now (bless_command pattern action next_id) =
      bless_rule state pattern action now next_id
  handle state now (bless_existing rule_id) = bless_by_id state rule_id now
  handle state now (revoke payee) = revoke_payee lower state payee now
  handle state now (offer_sent rule_id) = mark_offered state rule_id now

  -- The state after a history of signals.
  unfoldable pub replay : RegistryState → List (Datetime × RegistrySignal) → RegistryState
  replay state [] = state
  replay state ((now, signal) ∷ signals) = replay (handle state now signal) signals
