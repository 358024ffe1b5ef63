-- ===== src/Budget/Balance.antt =====
-- budget/balance.py: moves of budgeted money that cover what categories need.
pub mod Planner
pub mod Pool
pub mod Accounts
pub mod Coverage
pub mod Sums
pub mod Guard
pub mod Targets
pub mod Donors
use ynab_agent.Common.{ℕ, String, Bool, Option, none, some, List, [], ◌∷◌, is_empty}
use ynab_agent.Domain.Ids.{CategoryId}
use ynab_agent.Domain.Money
use ynab_agent.Domain.Money.{Money, zero_money}

pub data SourcePriority : Type 0 where
  ready_to_assign buffer overfunded : SourcePriority

-- The enum's number; the lower comes first.
abbrev pub rank : SourcePriority → ℕ
rank ready_to_assign = 0
rank buffer = 1
rank overfunded = 2

pub record Need : Type 0 where
  pub category : CategoryId
  pub shortfall : Money

-- `Need.is_met`
unfoldable pub is_met : Need → Bool
is_met need = Money.le need.shortfall zero_money

pub record Source : Type 0 where
  pub category : CategoryId
  pub available : Money
  pub priority : SourcePriority
  pub slack : Option Money
  pub projection : Money

abbrev or_available : Money → Option Money → Money
or_available available none = available
or_available available (some slack) = slack

-- `Source.drawable`
abbrev pub drawable : Source → Money
drawable source = or_available source.available source.slack

pub record BudgetMove : Type 0 where
  pub source : CategoryId
  pub destination : CategoryId
  pub amount : Money

pub record CoveragePlan : Type 0 where
  pub moves : List BudgetMove
  pub uncovered : List Need

-- `CoveragePlan.fully_covered`
abbrev pub fully_covered : CoveragePlan → Bool
fully_covered plan = is_empty plan.uncovered

pub record BalanceOption : Type 0 where
  pub label : String
  pub moves : List BudgetMove
  pub rationale : String

-- The loop of `BalanceOption.total`.
unfoldable pub total_from : Money → List BudgetMove → Money
total_from total [] = total
total_from total (move ∷ moves) = total_from (Money.add total move.amount) moves

-- `BalanceOption.total`
unfoldable pub total : BalanceOption → Money
unfolding total_from
total option = total_from zero_money option.moves

pub data OptionRejection : Type 0 where
  empty wrong_destination over_ceiling insufficient_source slack does_not_cover : OptionRejection

-- Ready-to-Assign stands among the sources under an id that no category has.
abbrev pub ready_to_assign_source : CategoryId
ready_to_assign_source = "@ready-to-assign"
