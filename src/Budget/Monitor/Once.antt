-- ===== src/Budget/Monitor/Once.antt =====
-- At most one alert a month for a category whose figures stay as they are.
use mathlib.Core.Path.{subst}
use ynab_agent.Common.{
  suc, sym, count-append_one, ℕ, ◌≢◌, count, test, String-discrete, ◌+◌, ◌≤◌, ◌≡◌, refl, ap, ◌∙◌,
  String, false, some, List, [], ◌∷◌, ◌++◌, All, arith, Bool-cases, inl, inr, ◌⊎◌,
}
use ynab_agent.Common.Int.{pos, ◌≤ℤ◌}
use ynab_agent.Budget.Overspend.{
  CategorySpend, MonthClock, IsClock, OverspendPolicy, assess, should_alert, is_fine,
}
use ynab_agent.Budget.Overspend.Quiet.{alert_of, quiet_never_realerts}
use ynab_agent.Budget.Ledger.{
  OverspendLedgerState, prior, prior-record_alert, prior-record_alert_other,
}
use ynab_agent.Budget.Monitor.{Pass, monitor_one, monitor_pass}

-- A later day of the same month.
abbrev pub After : MonthClock → MonthClock → Type 0
After clock later =
    IsClock later
    × (later.days_in_month ≡ clock.days_in_month)
    × (clock.day_of_month ≤ later.day_of_month)

-- A daily pass: its clock, and the categories as they are read then.
pub record Reading : Type 0 where
  pub clock : MonthClock
  pub categories : List CategorySpend

-- Days of one month, in order.
abbrev pub InOrder : List Reading → Type 0
InOrder [] = Unit
InOrder (r ∷ rest) = IsClock r.clock × All (λ q. After r.clock q.clock) rest × InOrder rest

module _ (policy : OverspendPolicy) (period : String) where
  -- The passes of several days over one ledger.
  pub passes : List Reading → Pass → Pass
  passes [] pass = pass
  passes (r ∷ rest) pass = passes rest (monitor_pass policy period r.clock r.categories pass)

module _ (spend : CategorySpend) where
  -- The category with the same figures, or another one, with another name.
  abbrev pub SameOrOther : CategorySpend → Type 0
  SameOrOther s = (s ≡ spend) ⊎ ((s.category ≢ spend.category) × (s.name ≢ spend.name))

  abbrev pub IsSteady : List Reading → Type 0
  IsSteady readings = All (λ r. All SameOrOther r.categories) readings

  -- The alerts about the category.
  abbrev pub alerts : List String → ℕ
  alerts names = count (λ name. test (String-discrete name spend.name)) names

alerts_own :
    (spend : CategorySpend) (names : List String)
    → alerts spend (names ++ spend.name ∷ []) ≡ suc (alerts spend names)
alerts_own spend names =
    ground (arith, count-append_one (λ n. test (String-discrete n spend.name)) names spend.name)

alerts_other :
    (spend : CategorySpend) (names : List String) (name : String)
    → name ≢ spend.name
    → alerts spend (names ++ name ∷ []) ≡ alerts spend names
alerts_other spend names name n =
    ground (arith, count-append_one (λ n. test (String-discrete n spend.name)) names name)

module _ (policy : OverspendPolicy) (period : String) (spend : CategorySpend) where
  -- The ledger holds the alert of that day.
  abbrev Alerted : MonthClock → Pass → Type 0
  Alerted clock pass =
      prior pass.ledger spend.category period ≡ some (alert_of (assess spend clock policy))

  abbrev SilentOn : Pass → Pass → Type 0
  SilentOn pass after =
      (prior after.ledger spend.category period ≡ prior pass.ledger spend.category period)
      × (alerts spend after.alerted ≡ alerts spend pass.alerted)

  other_one :
      (clock : MonthClock) (s : CategorySpend) (pass : Pass)
      → s.category ≢ spend.category
      → s.name ≢ spend.name
      → SilentOn pass (monitor_one policy period clock s pass)
  unfolding monitor_one
  other_one clock s pass c n =
      let assessment = assess s clock policy in
      let before = prior pass.ledger s.category period in
      elim (Bool-cases (is_fine assessment.verdict)) [
        | inl well ↦ rw well (refl, refl)
        | inr needy ↦ rw needy (elim (Bool-cases (should_alert assessment before policy)) [
          | inl due ↦ rw due (
            prior-record_alert_other pass.ledger s.category spend.category period
                (alert_of assessment) c,
            alerts_other spend pass.alerted s.name n,
          )
          | inr done ↦ rw done (refl, refl)
        ])
      ]

  own_quiet :
      (clock : MonthClock) (pass : Pass)
      → should_alert (assess spend clock policy) (prior pass.ledger spend.category period) policy
        ≡ false
      → SilentOn pass (monitor_one policy period clock spend pass)
  unfolding monitor_one
  own_quiet clock pass h = elim (Bool-cases (is_fine (assess spend clock policy).verdict)) [
    | inl well ↦ rw well (refl, refl)
    | inr needy ↦ rw (needy, h) (refl, refl)
  ]

  -- One more alert, which the ledger then holds.
  abbrev AlertedOn : MonthClock → Pass → Pass → Type 0
  AlertedOn clock pass after =
      (alerts spend after.alerted ≡ suc (alerts spend pass.alerted)) × Alerted clock after

  own_one :
      (clock : MonthClock) (pass : Pass)
      → let after = monitor_one policy period clock spend pass in
        SilentOn pass after ⊎ AlertedOn clock pass after
  unfolding monitor_one
  own_one clock pass =
      let assessment = assess spend clock policy in
      let before = prior pass.ledger spend.category period in
      elim (Bool-cases (is_fine assessment.verdict)) [
        | inl well ↦ rw well (inl (refl, refl))
        | inr needy ↦ rw needy (elim (Bool-cases (should_alert assessment before policy)) [
          | inl due ↦ rw due (
              inr (
                alerts_own spend pass.alerted,
                prior-record_alert pass.ledger spend.category period (alert_of assessment),
              ))
          | inr done ↦ rw done (inl (refl, refl))
        ])
      ]

  any_one :
      (clock : MonthClock) (s : CategorySpend) (pass : Pass)
      → SameOrOther spend s
      → let after = monitor_one policy period clock s pass in
        SilentOn pass after ⊎ AlertedOn clock pass after
  any_one clock s pass (inl same) =
      let after = λ (z : CategorySpend). monitor_one policy period clock z pass in
      subst (λ z. SilentOn pass (after z) ⊎ AlertedOn clock pass (after z)) (sym same)
        (own_one clock pass)
  any_one clock s pass (inr (c, n)) = inl (other_one clock s pass c n)

  module _ (sensible : pos 1 ≤ℤ policy.trend_threshold.milliunits) where
    quiet_one :
        (first clock : MonthClock) (s : CategorySpend) (pass : Pass)
        → IsClock first
        → After first clock
        → SameOrOther spend s
        → Alerted first pass
        → SilentOn pass (monitor_one policy period clock s pass)
    quiet_one first clock s pass v a (inl same) p =
        let quiet = quiet_never_realerts spend policy first clock v a.0 a.1 a.2 sensible in
        subst (λ z. SilentOn pass (monitor_one policy period clock z pass)) (sym same)
          (own_quiet clock pass (rw p quiet))
    quiet_one first clock s pass v a (inr (c, n)) p = other_one clock s pass c n

    quiet_pass :
        (first clock : MonthClock) (spends : List CategorySpend) (pass : Pass)
        → IsClock first
        → After first clock
        → All (SameOrOther spend) spends
        → Alerted first pass
        → SilentOn pass (monitor_pass policy period clock spends pass)
    unfolding monitor_pass
    quiet_pass first clock [] pass v a o p = (refl, refl)
    quiet_pass first clock (s ∷ rest) pass v a o p =
        let one = quiet_one first clock s pass v a o.0 p in
        let more =
          quiet_pass first clock rest (monitor_one policy period clock s pass) v a o.1
            (one.0 ∙ p) in
        (more.0 ∙ one.0, more.1 ∙ one.1)

    -- One pass alerts about the category once at most.
    one_pass :
        (clock : MonthClock) (spends : List CategorySpend) (pass : Pass)
        → IsClock clock
        → All (SameOrOther spend) spends
        → let after = monitor_pass policy period clock spends pass in
          SilentOn pass after ⊎ AlertedOn clock pass after
    unfolding monitor_pass
    one_pass clock [] pass v o = inl (refl, refl)
    one_pass clock (s ∷ rest) pass v o =
        let mid = monitor_one policy period clock s pass in
        elim (any_one clock s pass o.0) [
          | inl silent ↦ elim (one_pass clock rest mid v o.1) [
            | inl still ↦ inl (still.0 ∙ silent.0, still.1 ∙ silent.1)
            | inr late ↦ inr (late.0 ∙ ap suc silent.1, late.1)
          ]
          | inr early ↦
              let still = quiet_pass clock clock rest mid v (v, refl, omega arith) o.1 early.1 in
              inr (still.1 ∙ early.0, still.0 ∙ early.1)
        ]

    quiet_rest :
        (first : MonthClock) (readings : List Reading) (pass : Pass)
        → IsClock first
        → All (λ r. After first r.clock) readings
        → IsSteady spend readings
        → Alerted first pass
        → alerts spend (passes policy period readings pass).alerted ≡ alerts spend pass.alerted
    unfolding passes
    quiet_rest first [] pass v a o p = refl
    quiet_rest first (r ∷ rest) pass v a o p =
        let one = quiet_pass first r.clock r.categories pass v a.0 o.0 p in
        quiet_rest first rest (monitor_pass policy period r.clock r.categories pass) v a.1 o.1
          (one.0 ∙ p)
        ∙ one.1

    passes_from :
        (readings : List Reading) (pass : Pass)
        → InOrder readings
        → IsSteady spend readings
        → alerts spend (passes policy period readings pass).alerted ≤ alerts spend pass.alerted + 1
    unfolding passes
    passes_from [] pass d o = omega arith
    passes_from (r ∷ rest) pass d o =
        let after = monitor_pass policy period r.clock r.categories pass in
        elim (one_pass r.clock r.categories pass d.0 o.0) [
          | inl silent ↦ omega (arith, passes_from rest after d.2 o.1, silent.1)
          | inr one ↦ omega (arith, quiet_rest r.clock rest after d.0 d.1 o.1 one.1, one.0)
        ]

-- A category is alerted about once a month at most, while its figures stay as they are. Whatever the
-- ledger held before, the passes of a month are over lists of categories, in the order of their days,
-- and share one ledger; every category of a list is the one in question, with the same figures each
-- day, or one with another id and another name, whose figures may change. Over all passes, at most one
-- alert is of the category's name. The threshold of a trend is a milliunit or more, and the activities
-- that send and save an alert succeed.
pub month_alerts_once :
    (policy : OverspendPolicy) (period : String) (spend : CategorySpend) (readings : List Reading)
    (ledger : OverspendLedgerState)
    → pos 1 ≤ℤ policy.trend_threshold.milliunits
    → InOrder readings
    → IsSteady spend readings
    → alerts spend
        (passes policy period readings
          (record { ledger = ledger; alerted = []; needy = [] })).alerted
      ≤ 1
unfolding count
month_alerts_once policy period spend readings ledger t d o = omega (
  arith,
  passes_from policy period spend t readings (record { ledger = ledger; alerted = []; needy = [] })
      d o,
)
