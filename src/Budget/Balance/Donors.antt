-- ===== src/Budget/Balance/Donors.antt =====
-- Needs and donors, from the month's figures: the second half of budget/balance.py.
pub mod Slack
use Prim.Native.Nat.{Ordering}
use Prim.Native.String.{compare, then as lexicographic}
use ynab_agent.Common.{
  String-discrete, Bool, not, Option, none, some, List, [], ◌∷◌, ◌++◌, filter, map, any, test,
  if◌then◌else◌,
}
use ynab_agent.Common.Int.{neg}
use ynab_agent.Common.Order.{compare_ℤ}
use ynab_agent.Common.Sort.{sorted_by}
use ynab_agent.Domain.Ids.{CategoryId}
use ynab_agent.Domain.Money
use ynab_agent.Domain.Money.{Money, zero_money}
use ynab_agent.Budget.Overspend.{
  CategorySpend, MonthClock, OverspendAssessment, spent_magnitude, project_spend,
}
use ynab_agent.Budget.Balance.{Need, is_met, Source, ready_to_assign_source, SourcePriority}

-- `if amount < zero: amount = zero`
unfoldable pub at_least_zero : Money → Money
at_least_zero amount = if Money.lt amount zero_money then zero_money else amount

-- `need_from_assessment`
unfoldable pub need_from_assessment : OverspendAssessment → Need
unfolding at_least_zero
need_from_assessment assessment = record {
  category = assessment.category;
  shortfall =
      at_least_zero
        (Money.sub (Money.sub assessment.projected assessment.spent) assessment.available);
}

-- The comparison of two keys `(-n.shortfall.milliunits, str(n.category))`.
unfoldable pub compare_needs : Need → Need → Ordering
compare_needs a b =
    lexicographic (compare_ℤ (neg a.shortfall.milliunits) (neg b.shortfall.milliunits))
      (compare a.category b.category)

-- `needs_from_assessments`
unfoldable pub needs_from_assessments : List OverspendAssessment → List Need
unfolding need_from_assessment compare_needs
needs_from_assessments assessments =
    sorted_by compare_needs
      (filter (λ need. not (is_met need)) (map need_from_assessment assessments))

-- The slack of `donor_slack`.
unfoldable pub slack_of : CategorySpend → MonthClock → Money
unfolding at_least_zero
slack_of spend clock =
    at_least_zero
      (Money.sub spend.balance (Money.sub (project_spend spend clock) (spent_magnitude spend)))

-- `donor_slack`
unfoldable pub donor_slack : CategorySpend → MonthClock → Money × Money
unfolding slack_of
donor_slack spend clock = (slack_of spend clock, project_spend spend clock)

-- `category in exclude`
unfoldable pub is_excluded : List CategoryId → CategoryId → Bool
is_excluded exclude category = any (λ c. test (String-discrete c category)) exclude

abbrev pub donor : CategorySpend → Money × Money → Source
donor spend (slack, projection) = record {
  category = spend.category;
  available = spend.balance;
  priority = SourcePriority.overfunded;
  slack = some slack;
  projection = projection;
}

-- The loop over the categories.
unfoldable pub donors_from : List CategoryId → MonthClock → List CategorySpend → List Source
unfolding is_excluded donor_slack
donors_from exclude clock [] = []
donors_from exclude clock (spend ∷ spends) =
    let rest = donors_from exclude clock spends in
    if is_excluded exclude spend.category
    then rest
    else if Money.le (donor_slack spend clock).0 zero_money
    then rest
    else donor spend (donor_slack spend clock) ∷ rest

-- Ready to Assign, where it is positive.
abbrev pub unassigned_sources : Money → List Source
unassigned_sources ready_to_assign =
    if Money.lt zero_money ready_to_assign
    then record {
      category = ready_to_assign_source;
      available = ready_to_assign;
      priority = SourcePriority.ready_to_assign;
      slack = some ready_to_assign;
      projection = zero_money;
    }
      ∷ []
    else []

-- `sources_from_spends`
unfoldable pub sources_from_spends :
    List CategorySpend → Money → List CategoryId → MonthClock → List Source
unfolding donors_from
sources_from_spends spends ready_to_assign exclude clock =
    unassigned_sources ready_to_assign ++ donors_from exclude clock spends
