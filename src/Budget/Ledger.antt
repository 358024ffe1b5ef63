-- ===== src/Budget/Ledger.antt =====
-- budget/ledger.py: the last alert of each category.
use ynab_agent.Common.{
  ◌≡◌, ◌≢◌, String, String-discrete, Bool, not, ◌&&◌, Option, none, some, List, [], ◌∷◌, ◌++◌,
  filter, test, if◌then◌else◌, arith,
}
use ynab_agent.Budget.Overspend.{PriorAlert}

pub record LedgerEntry : Type 0 where
  pub category : String
  pub period : String
  pub alert : PriorAlert

pub record OverspendLedgerState : Type 0 where
  pub entries : List LedgerEntry

-- `entry.category == category and entry.period == period`
unfoldable pub is_about : String → String → LedgerEntry → Bool
is_about category period entry =
    test (String-discrete entry.category category) && test (String-discrete entry.period period)

-- The loop of `prior`.
unfoldable pub prior_among : String → String → List LedgerEntry → Option PriorAlert
unfolding is_about
prior_among category period [] = none
prior_among category period (entry ∷ entries) =
    let rest = prior_among category period entries in
    if is_about category period entry then some entry.alert else rest

-- `prior`
unfoldable pub prior : OverspendLedgerState → String → String → Option PriorAlert
unfolding prior_among
prior state category period = prior_among category period state.entries

-- `entry.category != category`
unfoldable pub is_other : String → LedgerEntry → Bool
is_other category entry = not (test (String-discrete entry.category category))

-- `record`
unfoldable pub record_alert :
    OverspendLedgerState → String → String → PriorAlert → OverspendLedgerState
unfolding is_other
record_alert state category period alert = record {
  entries =
      filter (is_other category) state.entries
      ++ record { category = category; period = period; alert = alert } ∷ [];
}

prior-others :
    (category period : String) (alert : PriorAlert) (entries : List LedgerEntry)
    → prior_among category period (
        filter (is_other category) entries
        ++ record { category = category; period = period; alert = alert } ∷ [])
      ≡ some alert
unfolding prior_among is_other filter
prior-others category period alert [] = ground arith
prior-others category period alert (entry ∷ entries) =
    ground (arith, prior-others category period alert entries)

-- The alert just recorded is the one that the next pass of its period compares with.
pub prior-record_alert :
    (state : OverspendLedgerState) (category period : String) (alert : PriorAlert)
    → prior (record_alert state category period alert) category period ≡ some alert
unfolding prior record_alert
prior-record_alert state category period alert = prior-others category period alert state.entries

others-prior :
    (category other period : String) (alert : PriorAlert) (entries : List LedgerEntry)
    → category ≢ other
    → prior_among other period (
        filter (is_other category) entries
        ++ record { category = category; period = period; alert = alert } ∷ [])
      ≡ prior_among other period entries
unfolding prior_among is_other filter
others-prior category other period alert [] n = ground arith
others-prior category other period alert (entry ∷ entries) n =
    ground (arith, others-prior category other period alert entries n)

-- An alert leaves those of the other categories as they are.
pub prior-record_alert_other :
    (state : OverspendLedgerState) (category other period : String) (alert : PriorAlert)
    → category ≢ other
    → prior (record_alert state category period alert) other period ≡ prior state other period
unfolding prior record_alert
prior-record_alert_other state category other period alert n =
    others-prior category other period alert state.entries n
