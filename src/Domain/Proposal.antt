-- ===== src/Domain/Proposal.antt =====
-- domain/proposal.py: the best guess, and the committed outcome.
use ynab_agent.Common.{String, Bool, Option, List}
use ynab_agent.Domain.Ids.{CategoryId, RuleId, Datetime}
use ynab_agent.Domain.Enums.{Confidence, DecidedBy, SourceKind}
use ynab_agent.Domain.Allocation.{ProposedAllocation, ResolvedAllocation}

pub record ProposalSource : Type 0 where
  pub kind : SourceKind
  pub detail : Option String

pub record Proposal : Type 0 where
  pub allocation : ProposedAllocation
  pub memo : Option String
  pub confidence : Confidence
  pub rationale : String
  pub sources : List ProposalSource
  pub alternatives : List CategoryId

pub record Decision : Type 0 where
  pub allocation : ResolvedAllocation
  pub memo : Option String
  pub approved : Bool
  pub decided_by : DecidedBy
  pub decided_at : Datetime
  pub rule_id : Option RuleId
