-- ===== src/Learn/Handler.antt =====
-- learn/actions.py and learn/handler.py: a lifecycle effect turned into a learning event.
use ynab_agent.Common.{String, Option, none, some, List}
use ynab_agent.Domain.Ids.{RuleId, Datetime}
use ynab_agent.Domain.Allocation
use ynab_agent.Domain.Allocation.{ResolvedAllocation}
use ynab_agent.Domain.Proposal.{Decision}
use ynab_agent.Domain.Rule.{Rule, RuleAction, RuleMatch}
use ynab_agent.Domain.Effect.{FeedRuleLearning, RuleLearningKind, confirm, correct}
use ynab_agent.Learn.Transitions.{
  LearningEvent, confirm_category, correct_decision, LearningOutcome, apply_learning, k_default,
}

-- `rule_action_from_decision`, on the decision's allocation and memo.
unfoldable pub action_of : ResolvedAllocation → Option String → Option RuleAction
action_of (Allocation.ResolvedAllocation.category c) memo = some (record {
  allocation =
      Allocation.ProposedAllocation.category
        (record { category = c.category; person_tag = c.person_tag });
  memo_template = memo;
})
action_of (Allocation.ResolvedAllocation.split s) memo = none

-- `rule_action_from_decision`
unfoldable pub rule_action_from_decision : Decision → Option RuleAction
unfolding action_of
rule_action_from_decision decision = action_of decision.allocation decision.memo

-- `RuleMatch(payee_pattern=feed.payee)`
abbrev pub payee_match : String → RuleMatch
payee_match payee = record {
  payee_pattern = payee;
  account = none;
  amount_range = none;
  item_keyword = none;
}

abbrev pub prior_rule_id : Option Decision → Option RuleId
prior_rule_id none = none
prior_rule_id (some prior) = prior.rule_id

-- The event for a decision whose template is known.
unfoldable pub learning_event :
    RuleLearningKind → RuleMatch → RuleAction → Decision → Option Decision → LearningEvent
learning_event confirm pattern action decision prior =
    confirm_category pattern action decision.rule_id
learning_event correct pattern action decision prior =
    correct_decision pattern action (prior_rule_id prior)

-- The learning event that a feed stands for, if it can be learned from.
unfoldable pub event_of : FeedRuleLearning → Option LearningEvent
unfolding rule_action_from_decision learning_event
event_of feed = elim feed.decision [
  | none ↦ none
  | some decision ↦ elim (rule_action_from_decision decision) [
    | none ↦ none
    | some action ↦
        some (learning_event feed.event (payee_match feed.payee) action decision feed.prior)
  ]
]

-- `plan_rule_update`
unfoldable pub plan_rule_update :
    List Rule → FeedRuleLearning → Datetime → RuleId → Option LearningOutcome
unfolding event_of
plan_rule_update rules feed now next_id = elim (event_of feed) [
  | none ↦ none
  | some event ↦ some (apply_learning rules now next_id event k_default)
]
