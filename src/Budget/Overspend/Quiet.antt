-- ===== src/Budget/Overspend/Quiet.antt =====
-- A category whose figures do not change is not alerted again.
use ynab_agent.Common.{◌≤◌, ◌≡◌, sym, ◌∙◌, false, some, arith}
use ynab_agent.Common.Int.{pos, ◌≤ℤ◌, ◌+ℤ◌, +ℤ_parts, -ℤ_parts}
use ynab_agent.Domain.Money
use ynab_agent.Domain.Money.{Money, zero_money}
use ynab_agent.Budget.Overspend.{
  CategorySpend, MonthClock, IsClock, OverspendPolicy, OverspendAssessment, PriorAlert,
  project_spend, verdict_of, assess, should_alert, is_over, spent_magnitude,
}
use ynab_agent.Budget.Overspend.Projection.{project_spend_later}

-- `PriorAlert(verdict=assessment.verdict, projected=assessment.projected)`
abbrev pub alert_of : OverspendAssessment → PriorAlert
alert_of assessment = record { verdict = assessment.verdict; projected = assessment.projected }

is_over-verdict_of :
    (remaining available : Money) (policy : OverspendPolicy)
    → is_over (verdict_of remaining available policy) ≡ Money.lt available zero_money
unfolding verdict_of
is_over-verdict_of remaining available policy = ground arith

not_worse :
    (projected before threshold : Money)
    → projected.milliunits ≤ℤ before.milliunits +ℤ pos 1
    → pos 1 ≤ℤ threshold.milliunits
    → Money.lt threshold (Money.sub projected before) ≡ false
unfolding Money.lt Money.sub
not_worse projected before threshold h t =
    ground
      (arith, -ℤ_parts projected.milliunits before.milliunits, +ℤ_parts before.milliunits (pos 1))

-- The verdict and the projection against those of the last alert.
steady :
    (assessment : OverspendAssessment) (prior : PriorAlert) (policy : OverspendPolicy)
    → is_over assessment.verdict ≡ is_over prior.verdict
    → Money.lt policy.trend_threshold (Money.sub assessment.projected prior.projected) ≡ false
    → should_alert assessment (some prior) policy ≡ false
unfolding should_alert
steady assessment prior policy o w = ground arith

module _ (category : CategorySpend) (policy : OverspendPolicy) where
  -- While a category's figures do not change, a later day of the month never repeats its alert:
  -- against the alert of an earlier day there is no escalation, and the projection has grown by
  -- less than any threshold of a milliunit or more.
  pub quiet_never_realerts :
      (clock later : MonthClock)
      → IsClock clock
      → IsClock later
      → later.days_in_month ≡ clock.days_in_month
      → clock.day_of_month ≤ later.day_of_month
      → pos 1 ≤ℤ policy.trend_threshold.milliunits
      → should_alert
          (assess category later policy)
          (some (alert_of (assess category clock policy)))
          policy
        ≡ false
  unfolding assess
  quiet_never_realerts clock later v w e o t =
      let before = project_spend category clock in
      let after = project_spend category later in
      let spent = spent_magnitude category in
      steady (assess category later policy) (alert_of (assess category clock policy)) policy
        (is_over-verdict_of (Money.sub after spent) category.balance policy
          ∙ sym (is_over-verdict_of (Money.sub before spent) category.balance policy))
        (not_worse after before policy.trend_threshold
          (project_spend_later category clock later v w e o).0 t)
