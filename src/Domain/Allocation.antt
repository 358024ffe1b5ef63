-- ===== src/Domain/Allocation.antt =====
-- domain/allocations.py: how an amount is assigned to categories. A model with a validator is
-- built by the function that is named after it, which may raise.
use ynab_agent.Common.{
  ℕ, ◌≤◌, ◌≡◌, String, ltb, ◌==◌, if◌then◌else◌, not, String-discrete, Option, List, [], ◌∷◌,
  length, sum, All, Result, ok, raise, value_error, is_empty,
}
use native.Mathlib.Decide.{ℕ_discrete}
use ynab_agent.Domain.Ids.{CategoryId, PersonTag}
use ynab_agent.Domain.Money
use ynab_agent.Domain.Money.{Money, Money-discrete, zero_money}

pub data ShareSpec : Type 0 where
  percent_share : ℕ → ShareSpec
  fixed_share : Money → ShareSpec

pub record SplitLine : Type 0 where
  pub share : ShareSpec
  pub category : CategoryId
  pub memo_template : Option String
  pub person_tag : Option PersonTag

pub record ProposedCategory : Type 0 where
  pub category : CategoryId
  pub person_tag : Option PersonTag

pub record ProposedSplit : Type 0 where
  pub lines : List SplitLine

pub data ProposedAllocation : Type 0 where
  category : ProposedCategory → ProposedAllocation
  split : ProposedSplit → ProposedAllocation

-- `[line.share.percent for line in lines if isinstance(line.share, PercentShare)]`
unfoldable pub percents : List SplitLine → List ℕ
percents [] = []
percents (line ∷ lines) = elim line.share [
  | percent_share p ↦ p ∷ percents lines
  | fixed_share _ ↦ percents lines
]

-- `ProposedSplit(lines=...)`, with its validator `_check_lines`.
unfoldable pub proposed_split : List SplitLine → Result ProposedSplit
unfolding percents
proposed_split lines =
    if ltb (length lines) 2
    then raise value_error
    else if is_empty (percents lines)
    then raise value_error
    else if not (sum (percents lines) == 100)
    then raise value_error
    else ok (record { lines = lines })

-- `PercentShare(percent=...)` is held to 1 to 100 by its `Field`.
abbrev pub ShareInRange : SplitLine → Type 0
ShareInRange line = elim line.share [ percent_share p ↦ (1 ≤ p) × (p ≤ 100) | fixed_share _ ↦ Unit ]

-- The templates that the constructors let through.
pub record ProposedSplitIsValid (s : ProposedSplit) : Type 0 where
  pub accepted : proposed_split s.lines ≡ ok s
  pub shares : All ShareInRange s.lines

abbrev pub ProposedIsValid : ProposedAllocation → Type 0
ProposedIsValid (category _) = Unit
ProposedIsValid (split s) = ProposedSplitIsValid s

pub record ResolvedCategory : Type 0 where
  pub category : CategoryId
  pub person_tag : Option PersonTag

pub record ResolvedSplitLine : Type 0 where
  pub category : CategoryId
  pub amount : Money
  pub memo : Option String
  pub person_tag : Option PersonTag

pub record ResolvedSplit : Type 0 where
  pub lines : List ResolvedSplitLine

pub data ResolvedAllocation : Type 0 where
  category : ResolvedCategory → ResolvedAllocation
  split : ResolvedSplit → ResolvedAllocation

-- `ResolvedSplit(lines=...)`, with its validator `_check_lines`.
unfoldable pub resolved_split : List ResolvedSplitLine → Result ResolvedSplit
resolved_split lines =
    if ltb (length lines) 2 then raise value_error else ok (record { lines = lines })

-- The loop of `ResolvedSplit.total`, from the running amount.
unfoldable pub total_from : Money → List ResolvedSplitLine → Money
total_from running [] = running
total_from running (line ∷ lines) = total_from (Money.add running line.amount) lines

unfoldable pub total : ResolvedSplit → Money
unfolding total_from
total s = total_from zero_money s.lines

pub ProposedAllocation-discrete : Discrete ProposedAllocation
ProposedAllocation-discrete = hlevel (String-discrete, Money-discrete, ℕ_discrete)

pub ResolvedAllocation-discrete : Discrete ResolvedAllocation
ResolvedAllocation-discrete = hlevel (String-discrete, Money-discrete)
