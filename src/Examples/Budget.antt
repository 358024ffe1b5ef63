-- ===== src/Examples/Budget.antt =====
-- The budget at concrete inputs.
use ynab_agent.Common.Sort.{sorted_by}
use ynab_agent.Common.{
  ℕ, ◌*◌, inl, inr, String-discrete, ◌≡◌, ◌≢◌, ◌≤◌, refl, List, [], ◌∷◌, All, some, none, Option,
  ok, ◌↔◌, arith,
}
use ynab_agent.Common.Int.{pos, negsuc, ◌≤ℤ◌, ◌+ℤ◌, ◌-ℤ◌}
use ynab_agent.Domain.Ids.{CategoryId}
use ynab_agent.Domain.Money
use ynab_agent.Domain.Money.{Money, from_milliunits, zero_money}
use ynab_agent.Budget.Overspend.{CategorySpend, MonthClock, IsClock, default_overspend_policy}
use ynab_agent.Budget.Ledger.{OverspendLedgerState}
use ynab_agent.Budget.Monitor.Once.{
  Reading, passes, InOrder, IsSteady, SameOrOther, alerts, month_alerts_once,
}
use text.Mathlib.TextEquality.{eq_iff}
use ynab_agent.Budget.Balance.{
  Need, Source, BudgetMove, ready_to_assign_source, BalanceOption, drawable, SourcePriority,
}
use ynab_agent.Budget.Balance.Planner.{
  fallback_option, amounts_of, plan_coverage, plan_needs, cover_need, draw_from, draw_once, goes_on,
  next_take, take_least, set_amount, amounts_from, close_need, compare_sources,
}
use ynab_agent.Budget.Balance.Pool.{pulled, IsCapped, sparable, plan_coverage_within}
use ynab_agent.Budget.Balance.Accounts.{moved}
use ynab_agent.Budget.Balance.Sums.{Entry}
use ynab_agent.Budget.Balance.Guard.{
  Mapping, mapping_of, check_moves, validate_option, feasible_options,
}
use ynab_agent.Budget.Balance.Guard.Approved.{Allowed, check_moves-none_iff}
use ynab_agent.Budget.Balance.Guard.Validated.{Valid, validate_option-none_iff}
use ynab_agent.Budget.Balance.Guard.Fallback.{IsFunded, fallback_option_feasible}
use ynab_agent.Budget.Balance.Targets.{move_targets}
use ynab_agent.Budget.Balance.Targets.Written.{find_entry, target_for}
use ynab_agent.Budget.Balance.Targets.Flow.{Touches, flow, move_targets-flow}
use ynab_agent.Examples.Samples.{cautious}
use ynab_agent.Budget.Balance.Coverage.{
  owed, wanted, plan_coverage_balances, uncovered_when_drained,
}

-- $90 of a $100 budget is spent on the 20th.
abbrev dining_spend : CategorySpend
dining_spend = record {
  category = "dining";
  name = "Dining";
  budgeted = from_milliunits (pos 100_000);
  activity = from_milliunits (negsuc 89_999);
  balance = from_milliunits (pos 10_000);
  scheduled_remaining = zero_money;
}

abbrev day : ℕ → MonthClock
day n = record { day_of_month = n; days_in_month = 31 }

abbrev no_alerts : OverspendLedgerState
no_alerts = record { entries = [] }

on_20th_IsClock : IsClock (day 20)
on_20th_IsClock = record {
  begun = omega arith;
  within = omega arith;
  shortest = omega arith;
  longest = omega arith;
}

on_21st_IsClock : IsClock (day 21)
on_21st_IsClock = record {
  begun = omega arith;
  within = omega arith;
  shortest = omega arith;
  longest = omega arith;
}

-- Another category, overspent by more each day.
abbrev rent_spend : ℕ → CategorySpend
rent_spend n = record {
  category = "rent";
  name = "Rent";
  budgeted = from_milliunits (pos 100_000);
  activity = from_milliunits (negsuc (n * 10_000));
  balance = zero_money;
  scheduled_remaining = zero_money;
}

-- The other category is read before it on the 20th, and after it on the 21st.
abbrev two_days : List Reading
two_days =
    record { clock = day 20; categories = rent_spend 20 ∷ dining_spend ∷ [] }
    ∷ record { clock = day 21; categories = dining_spend ∷ rent_spend 21 ∷ [] }
    ∷ []

two_days-InOrder : InOrder two_days
two_days-InOrder =
    (on_20th_IsClock, ((on_21st_IsClock, refl, omega arith), tt), (on_21st_IsClock, tt, tt))

rent-SameOrOther : (n : ℕ) → SameOrOther dining_spend (rent_spend n)
rent-SameOrOther n =
    inr (λ e. ground (arith, eq_iff "rent" "dining"), λ e. ground (arith, eq_iff "Rent" "Dining"))

two_days-IsSteady : IsSteady dining_spend two_days
two_days-IsSteady =
    ((rent-SameOrOther 20, (inl refl, tt)), ((inl refl, (rent-SameOrOther 21, tt)), tt))

month_alerts_once_example :
    alerts dining_spend
      (passes default_overspend_policy "2026-01" two_days
        (record { ledger = no_alerts; alerted = []; needy = [] })).alerted
    ≤ 1
month_alerts_once_example =
    month_alerts_once default_overspend_policy "2026-01" dining_spend two_days no_alerts
      (omega arith) two_days-InOrder two_days-IsSteady

-- A need for five cents, and sources that can spare three.
abbrev needs : List Need
needs = record { category = "dining"; shortfall = from_milliunits (pos 50) } ∷ []

abbrev reserve : Source
reserve = record {
  category = "reserve";
  available = from_milliunits (pos 40);
  priority = SourcePriority.overfunded;
  slack = some (from_milliunits (pos 20));
  projection = from_milliunits (pos 20);
}

abbrev unassigned : Source
unassigned = record {
  category = ready_to_assign_source;
  available = from_milliunits (pos 10);
  priority = SourcePriority.ready_to_assign;
  slack = none;
  projection = zero_money;
}

abbrev donors : List Source
donors = reserve ∷ unassigned ∷ []

abbrev ceiling : Money
ceiling = from_milliunits (pos 15)

plan_coverage_within_example :
    All (IsCapped ceiling) (plan_coverage needs donors ceiling).moves
    × ((c : CategoryId) → pulled c (plan_coverage needs donors ceiling).moves ≤ℤ sparable donors c)
plan_coverage_within_example = plan_coverage_within needs donors ceiling

plan_coverage_balances_example :
    moved (plan_coverage needs donors ceiling).moves
      +ℤ owed (plan_coverage needs donors ceiling).uncovered
    ≡ wanted needs
plan_coverage_balances_example = plan_coverage_balances needs donors ceiling

abbrev planned : List BudgetMove
planned =
    record {
      source = "@ready-to-assign";
      destination = "dining";
      amount = from_milliunits (pos 10);
    }
    ∷ record { source = "reserve"; destination = "dining"; amount = from_milliunits (pos 15) }
    ∷ record { source = "reserve"; destination = "dining"; amount = from_milliunits (pos 5) }
    ∷ []

plan_leaves : plan_coverage needs donors ceiling ≡ record {
  moves = planned;
  uncovered = record { category = "dining"; shortfall = from_milliunits (pos 20) } ∷ [];
}
unfolding plan_coverage plan_needs cover_need draw_from draw_once goes_on next_take take_least
    set_amount amounts_from close_need sorted_by compare_sources Money.lt Money.le Money.sub
    String-discrete ◌-ℤ◌
plan_leaves = refl

still_short : (plan_coverage needs donors ceiling).uncovered ≢ []
still_short e = let shown = rw plan_leaves at e in cc

uncovered_when_drained_example :
    All
      (λ s.
        (amounts_of drawable donors s.category).milliunits
        ≤ℤ pulled s.category (plan_coverage needs donors ceiling).moves)
      donors
uncovered_when_drained_example =
    uncovered_when_drained needs donors ceiling (omega arith) still_short

abbrev held : Mapping
held = mapping_of (λ s. s.available) donors

abbrev spare : Option Mapping
spare = some (mapping_of drawable donors)

check_moves-none_iff_example :
    (check_moves planned held cautious spare ≡ none) ↔ Allowed held spare cautious planned
check_moves-none_iff_example = check_moves-none_iff planned held cautious spare

abbrev small_need : Need
small_need = record { category = "dining"; shortfall = from_milliunits (pos 25) }

abbrev two_moves : List BudgetMove
two_moves =
    record {
      source = "@ready-to-assign";
      destination = "dining";
      amount = from_milliunits (pos 10);
    }
    ∷ record { source = "reserve"; destination = "dining"; amount = from_milliunits (pos 15) }
    ∷ []

abbrev fallback : BalanceOption
fallback = record {
  label = "Automatic";
  moves = two_moves;
  rationale =
      "Pull from Ready to Assign first, then buffers, then over-funded categories, in that order.";
}

fallback_found : fallback_option small_need donors cautious.per_move_ceiling ≡ some fallback
unfolding fallback_option plan_coverage plan_needs cover_need draw_from draw_once goes_on next_take
    take_least set_amount amounts_from close_need sorted_by compare_sources Money.lt Money.le
    Money.sub String-discrete ◌-ℤ◌
fallback_found = refl

donors-IsFunded : All IsFunded donors
donors-IsFunded = (omega arith, (omega arith, tt))

fallback_option_feasible_example :
    feasible_options (fallback ∷ []) small_need donors cautious ≡ fallback ∷ []
fallback_option_feasible_example =
    fallback_option_feasible small_need donors cautious donors-IsFunded fallback_found

validate_option-none_iff_example :
    (validate_option fallback small_need held cautious spare ≡ none)
    ↔ Valid held spare cautious small_need two_moves
validate_option-none_iff_example = validate_option-none_iff fallback small_need held cautious spare

-- Every category has ten cents.
abbrev tens : Mapping
tens c = some (from_milliunits (pos 100))

planned-Touches : All (Touches tens) planned
planned-Touches = ((λ e. cc, λ d e. cc), ((λ e. cc, λ d e. cc), ((λ e. cc, λ d e. cc), tt)))

move_targets-flow_example :
    (targets : List Entry) × (move_targets planned tens ≡ ok targets)
    × ((c : CategoryId)
        → find_entry c targets ≡ target_for (tens c) (from_milliunits (flow c planned)))
move_targets-flow_example = move_targets-flow planned tens planned-Touches
