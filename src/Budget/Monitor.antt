-- ===== src/Budget/Monitor.antt =====
-- workflow/monitor_workflow.py: one daily pass over the categories. The alerts' e-mails and the
-- start of the coverage offer are effects, here the lists that a pass returns; the ledger of
-- workflow/overspend_ledger_workflow.py is the state that it reads and records in.
pub mod Once
use ynab_agent.Common.{
  ℕ, String, Bool, true, false, Option, none, some, List, [], ◌∷◌, if◌then◌else◌, ◌++◌,
}
use ynab_agent.Budget.Overspend.{
  CategorySpend, MonthClock, OverspendPolicy, OverspendAssessment, PriorAlert, assess, should_alert,
  is_fine,
}
use ynab_agent.Budget.Overspend.Quiet.{alert_of}
use ynab_agent.Budget.Ledger.{OverspendLedgerState, prior, record_alert}

-- What a pass has done so far: the ledger, the names alerted, and the assessments that feed the
-- coverage offer.
pub record Pass : Type 0 where
  pub ledger : OverspendLedgerState
  pub alerted : List String
  pub needy : List OverspendAssessment

module _ (policy : OverspendPolicy) (period : String) (clock : MonthClock) where
  -- The loop's body for one category that is not fine.
  unfoldable pub alert_one : CategorySpend → OverspendAssessment → Pass → Pass
  alert_one spend assessment pass =
      if should_alert assessment (prior pass.ledger spend.category period) policy
      then record {
        ledger = record_alert pass.ledger spend.category period (alert_of assessment);
        alerted = pass.alerted ++ spend.name ∷ [];
        needy = pass.needy ++ assessment ∷ [];
      }
      else record pass { needy = pass.needy ++ assessment ∷ [] }

  -- The loop's body.
  unfoldable pub monitor_one : CategorySpend → Pass → Pass
  unfolding alert_one
  monitor_one spend pass =
      let assessment = assess spend clock policy in
      if is_fine assessment.verdict then pass else alert_one spend assessment pass

  -- The loop over the categories.
  unfoldable pub monitor_pass : List CategorySpend → Pass → Pass
  monitor_pass [] pass = pass
  monitor_pass (spend ∷ spends) pass = monitor_pass spends (monitor_one spend pass)
