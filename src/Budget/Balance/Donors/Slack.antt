-- ===== src/Budget/Balance/Donors/Slack.antt =====
-- What a donor can spare, against what a needy category lacks.
use ynab_agent.Common.{
  ◌≡◌, refl, ◌∙◌, false, List, [], ◌∷◌, ◌⊎◌, inl, inr, All, All-append, Bool-cases, arith,
}
use ynab_agent.Common.Int.{ℤ, pos, ◌+ℤ◌, ◌-ℤ◌, ◌≤ℤ◌, ◌<ℤ◌, int_laws, +ℤ_parts}
use ynab_agent.Domain.Ids.{CategoryId}
use ynab_agent.Domain.Money
use ynab_agent.Domain.Money.{Money, zero_money}
use ynab_agent.Budget.Overspend.{
  CategorySpend, MonthClock, OverspendPolicy, spent_magnitude, project_spend, assess,
}
use ynab_agent.Budget.Balance.{Source, drawable, ready_to_assign_source}
use ynab_agent.Budget.Balance.Guard.Fallback.{IsFunded}
use ynab_agent.Budget.Balance.Donors.{
  at_least_zero, need_from_assessment, slack_of, donor_slack, is_excluded, donors_from,
  sources_from_spends, unassigned_sources,
}

at_least_zero-cases :
    (z : ℤ)
    → ((z <ℤ pos 0) × ((at_least_zero (record { milliunits = z })).milliunits ≡ pos 0))
      ⊎ ((pos 0 ≤ℤ z) × ((at_least_zero (record { milliunits = z })).milliunits ≡ z))
unfolding at_least_zero Money.lt
at_least_zero-cases z = elim (Bool-cases (Money.lt (record { milliunits = z }) zero_money)) [
  | inl e ↦ inl (ground arith, ground arith)
  | inr e ↦ inr (ground arith, ground arith)
]

-- Of a difference and its opposite, each held at zero or above, one is zero.
opposed :
    (b r : ℤ)
    → let slack = (at_least_zero (record { milliunits = b -ℤ r })).milliunits in
      let short = (at_least_zero (record { milliunits = r -ℤ b })).milliunits in
      (slack +ℤ r ≡ short +ℤ b) × ((slack ≡ pos 0) ⊎ (short ≡ pos 0))
opposed b r = elim (at_least_zero-cases (b -ℤ r)) [
  | inl (low, none_left) ↦ elim (at_least_zero-cases (r -ℤ b)) [
    | inl (low', none_short) ↦ (rw (none_left, none_short) (omega int_laws), inl none_left)
    | inr (high', short) ↦ (rw (none_left, short) (omega int_laws), inl none_left)
  ]
  | inr (high, left) ↦ elim (at_least_zero-cases (r -ℤ b)) [
    | inl (low', none_short) ↦ (rw (left, none_short) (omega int_laws), inr none_short)
    | inr (high', short) ↦
        (rw (left, short) (omega int_laws), inr (short ∙ (omega (int_laws, high, high'))))
  ]
]

-- A category either lacks money or can spare some, never both: its slack as a donor and its
-- shortfall as a need are not both positive, and their difference is its available funds less what
-- it is projected to spend in the rest of the month.
pub slack_opposes_need :
    (spend : CategorySpend) (clock : MonthClock) (policy : OverspendPolicy)
    → let slack = (donor_slack spend clock).0.milliunits in
      let shortfall = (need_from_assessment (assess spend clock policy)).shortfall.milliunits in
      let ahead = (project_spend spend clock).milliunits -ℤ (spent_magnitude spend).milliunits in
      (slack +ℤ ahead ≡ shortfall +ℤ spend.balance.milliunits)
      × ((slack ≡ pos 0) ⊎ (shortfall ≡ pos 0))
unfolding donor_slack slack_of need_from_assessment assess Money.sub
slack_opposes_need spend clock policy =
    opposed spend.balance.milliunits
      ((project_spend spend clock).milliunits -ℤ (spent_magnitude spend).milliunits)

-- What the balancer may pull from.
pub record IsSafe (exclude : List CategoryId) (source : Source) : Type 0 where
  pub positive : pos 0 <ℤ (drawable source).milliunits
  pub funded : IsFunded source
  pub apart :
      (source.category ≡ ready_to_assign_source) ⊎ (is_excluded exclude source.category ≡ false)

project_spend_floor :
    (spend : CategorySpend) (clock : MonthClock)
    → pos 0 ≤ℤ spend.scheduled_remaining.milliunits
    → (spent_magnitude spend).milliunits ≤ℤ (project_spend spend clock).milliunits
unfolding project_spend Money.lt Money.add
project_spend_floor spend clock h =
    ground (arith, +ℤ_parts (spent_magnitude spend).milliunits spend.scheduled_remaining.milliunits)

funded_slack :
    (b r : ℤ)
    → pos 0 ≤ℤ r
    → pos 0 <ℤ (at_least_zero (record { milliunits = b -ℤ r })).milliunits
    → (at_least_zero (record { milliunits = b -ℤ r })).milliunits ≤ℤ b
funded_slack b r h p = elim (at_least_zero-cases (b -ℤ r)) [
  | inl (low, e) ↦ absurd (let none_left : pos 0 <ℤ pos 0 = rw e at p in omega (arith, none_left))
  | inr (high, e) ↦ rw e (omega (int_laws, h))
]

slack_funded :
    (spend : CategorySpend) (clock : MonthClock)
    → pos 0 ≤ℤ spend.scheduled_remaining.milliunits
    → Money.le (donor_slack spend clock).0 zero_money ≡ false
    → (pos 0 <ℤ (slack_of spend clock).milliunits)
      × ((slack_of spend clock).milliunits ≤ℤ spend.balance.milliunits)
unfolding donor_slack slack_of Money.le Money.sub
slack_funded spend clock h e =
    let ahead = (project_spend spend clock).milliunits -ℤ (spent_magnitude spend).milliunits in
    let some_left : pos 0
        <ℤ (at_least_zero (record { milliunits = spend.balance.milliunits -ℤ ahead })).milliunits =
      ground arith in
    (
      some_left,
      funded_slack spend.balance.milliunits ahead
          (omega (int_laws, project_spend_floor spend clock h)) some_left,
    )

donors_from-IsSafe :
    (exclude : List CategoryId) (clock : MonthClock) (spends : List CategorySpend)
    → All (λ spend. pos 0 ≤ℤ spend.scheduled_remaining.milliunits) spends
    → All (IsSafe exclude) (donors_from exclude clock spends)
unfolding donors_from donor_slack
donors_from-IsSafe exclude clock [] h = tt
donors_from-IsSafe exclude clock (spend ∷ spends) h =
    elim (Bool-cases (is_excluded exclude spend.category)) [
      | inl out ↦ rw out (donors_from-IsSafe exclude clock spends h.1)
      | inr kept ↦ rw kept (elim (Bool-cases (Money.le (donor_slack spend clock).0 zero_money)) [
        | inl bare ↦ rw bare (donors_from-IsSafe exclude clock spends h.1)
        | inr rich ↦
            let (positive, funded) = slack_funded spend clock h.0 rich in
            rw rich (
              record { positive = positive; funded = funded; apart = inr kept },
              donors_from-IsSafe exclude clock spends h.1,
            )
      ])
    ]

unassigned-IsSafe :
    (exclude : List CategoryId) (ready_to_assign : Money)
    → All (IsSafe exclude) (unassigned_sources ready_to_assign)
unfolding Money.lt
unassigned-IsSafe exclude ready_to_assign =
    elim (Bool-cases (Money.lt zero_money ready_to_assign)) [
      | inl some_left ↦
          rw some_left
            (record { positive = ground arith; funded = omega arith; apart = inl refl }, tt)
      | inr none_left ↦ rw none_left tt
    ]

-- The balancer pulls only where it is safe: where no scheduled outflow is negative, every source
-- can give something, can give no more than its balance, and is Ready to Assign or no category of
-- the excluded ones.
pub sources_from_spends-IsSafe :
    (spends : List CategorySpend) (ready_to_assign : Money) (exclude : List CategoryId)
    (clock : MonthClock)
    → All (λ spend. pos 0 ≤ℤ spend.scheduled_remaining.milliunits) spends
    → All (IsSafe exclude) (sources_from_spends spends ready_to_assign exclude clock)
unfolding sources_from_spends
sources_from_spends-IsSafe spends ready_to_assign exclude clock h =
    All-append (IsSafe exclude) (unassigned_sources ready_to_assign) _
      (unassigned-IsSafe exclude ready_to_assign) (donors_from-IsSafe exclude clock spends h)
