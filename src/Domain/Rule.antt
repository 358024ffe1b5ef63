-- ===== src/Domain/Rule.antt =====
-- domain/rule.py: a `match → action` with a trust state.
use ynab_agent.Common.{
  ℕ, String, Bool, false, not, Option, none, some, Result, ok, raise, value_error, String-discrete,
  if◌then◌else◌,
}
use ynab_agent.Common.Int.{ℤ-discrete}
use native.Mathlib.Decide.{ℕ_discrete}
use ynab_agent.Domain.Ids.{AccountId, RuleId, Datetime}
use ynab_agent.Domain.Enums.{RuleSource, TrustState}
use ynab_agent.Domain.Money
use ynab_agent.Domain.Money.{Money, Money-discrete}
use ynab_agent.Domain.Allocation.{ProposedAllocation, ProposedAllocation-discrete}

pub record AmountRange : Type 0 where
  pub low : Option Money
  pub high : Option Money

above : Option Money → Option Money → Bool
above (some low) (some high) = Money.lt high low
above _ _ = false

-- `AmountRange(low=..., high=...)`, with its validator `_check_order`.
unfoldable pub amount_range : Option Money → Option Money → Result AmountRange
unfolding above
amount_range low high =
    if above low high then raise value_error else ok (record { low = low; high = high })

-- `low is not None and amount < low`
below_low : Option Money → Money → Bool
below_low none amount = false
below_low (some low) amount = Money.lt amount low

-- `high is not None and amount > high`
above_high : Option Money → Money → Bool
above_high none amount = false
above_high (some high) amount = Money.lt high amount

unfoldable pub contains : AmountRange → Money → Bool
unfolding below_low above_high
contains range amount =
    if below_low range.low amount then false else not (above_high range.high amount)

pub record RuleMatch : Type 0 where
  pub payee_pattern : String
  pub account : Option AccountId
  pub amount_range : Option AmountRange
  pub item_keyword : Option String

pub record RuleAction : Type 0 where
  pub allocation : ProposedAllocation
  pub memo_template : Option String

pub record Rule : Type 0 where
  pub id : RuleId
  pub match : RuleMatch
  pub action : RuleAction
  pub trust : TrustState
  pub hits : ℕ
  pub last_confirmed_at : Option Datetime
  pub last_corrected_at : Option Datetime
  pub source : RuleSource
  pub offered_at : Option Datetime

pub RuleMatch-discrete : Discrete RuleMatch
RuleMatch-discrete = hlevel (String-discrete, Money-discrete)

pub RuleAction-discrete : Discrete RuleAction
RuleAction-discrete = hlevel (String-discrete, ProposedAllocation-discrete)

pub Rule-discrete : Discrete Rule
Rule-discrete =
    hlevel (String-discrete, RuleMatch-discrete, RuleAction-discrete, ℤ-discrete, ℕ_discrete)
