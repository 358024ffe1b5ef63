-- ===== src/Budget/Overspend.antt =====
-- budget/overspend.py: the projection of a category's month, and when it is worth an alert.
-- `period_and_clock` reads the household's time zone, which is the platform's.
pub mod Projection
pub mod Quiet
use ynab_agent.Common.{
  ℕ, ◌+◌, ◌-◌, ◌≤◌, String, Bool, true, false, not, ◌&&◌, ◌||◌, Option, none, some, if◌then◌else◌,
}
use ynab_agent.Common.Int.{pos, ◌+ℤ◌, scale, floor_div, max_ℤ}
use ynab_agent.Domain.Ids.{CategoryId}
use ynab_agent.Domain.Money
use ynab_agent.Domain.Money.{Money, from_milliunits, zero_money}

pub record CategorySpend : Type 0 where
  pub category : CategoryId
  pub name : String
  pub budgeted : Money
  pub activity : Money
  pub balance : Money
  pub scheduled_remaining : Money

pub record MonthClock : Type 0 where
  pub day_of_month : ℕ
  pub days_in_month : ℕ

-- What the validators of `MonthClock` let through.
pub record IsClock (clock : MonthClock) : Type 0 where
  pub begun : 1 ≤ clock.day_of_month
  pub within : clock.day_of_month ≤ clock.days_in_month
  pub shortest : 28 ≤ clock.days_in_month
  pub longest : clock.days_in_month ≤ 31

pub data OverspendVerdict : Type 0 where
  fine trending_over already_over : OverspendVerdict

pub record OverspendPolicy : Type 0 where
  pub trend_threshold : Money

-- $25
abbrev pub default_overspend_policy : OverspendPolicy
default_overspend_policy = record { trend_threshold = from_milliunits (pos 25_000) }

pub record OverspendAssessment : Type 0 where
  pub category : CategoryId
  pub name : String
  pub verdict : OverspendVerdict
  pub budgeted : Money
  pub spent : Money
  pub projected : Money
  pub available : Money

pub record PriorAlert : Type 0 where
  pub verdict : OverspendVerdict
  pub projected : Money

-- `spent_magnitude`
unfoldable pub spent_magnitude : CategorySpend → Money
spent_magnitude category =
    if Money.is_outflow category.activity then Money.negate category.activity else zero_money

-- The run rate of `project_spend`: what a month like the days so far would cost.
unfoldable pub run_rate : Money → MonthClock → Money
run_rate spent clock =
    from_milliunits (floor_div (scale spent.milliunits clock.days_in_month) clock.day_of_month)

-- The plan view of `project_spend`.
unfoldable pub anchor : CategorySpend → Money
unfolding spent_magnitude
anchor category =
    from_milliunits (max_ℤ category.budgeted.milliunits (spent_magnitude category).milliunits)

-- The blend of the two. A clock's day is within its month, so that the difference is exact.
unfoldable pub blend : CategorySpend → MonthClock → Money
unfolding run_rate anchor
blend category clock =
    let rate = run_rate (spent_magnitude category) clock in
    let remaining = clock.days_in_month - clock.day_of_month in
    from_milliunits (
      floor_div
        (scale rate.milliunits clock.day_of_month +ℤ scale (anchor category).milliunits remaining)
        clock.days_in_month)

-- `project_spend`
unfoldable pub project_spend : CategorySpend → MonthClock → Money
project_spend category clock =
    let projected = Money.add (blend category clock) category.scheduled_remaining in
    let floor = Money.add (spent_magnitude category) category.scheduled_remaining in
    if Money.lt floor projected then projected else floor

-- The verdict of `assess`, from the remaining projection and the funds at hand.
unfoldable pub verdict_of : Money → Money → OverspendPolicy → OverspendVerdict
verdict_of projected_remaining available policy =
    if Money.lt available zero_money
    then already_over
    else if Money.lt policy.trend_threshold (Money.sub projected_remaining available)
    then trending_over
    else fine

-- `assess`
unfoldable pub assess : CategorySpend → MonthClock → OverspendPolicy → OverspendAssessment
unfolding verdict_of
assess category clock policy =
    let spent = spent_magnitude category in
    let projected = project_spend category clock in
    record {
      category = category.category;
      name = category.name;
      verdict = verdict_of (Money.sub projected spent) category.balance policy;
      budgeted = category.budgeted;
      spent = spent;
      projected = projected;
      available = category.balance;
    }

abbrev pub is_fine : OverspendVerdict → Bool
is_fine fine = true
is_fine _ = false

abbrev pub is_over : OverspendVerdict → Bool
is_over already_over = true
is_over _ = false

-- `should_alert`
unfoldable pub should_alert : OverspendAssessment → Option PriorAlert → OverspendPolicy → Bool
should_alert assessment none policy = not (is_fine assessment.verdict)
should_alert assessment (some prior) policy =
    let escalated = is_over assessment.verdict && not (is_over prior.verdict) in
    let worsened =
      Money.lt policy.trend_threshold (Money.sub assessment.projected prior.projected) in
    if is_fine assessment.verdict then false else escalated || worsened
