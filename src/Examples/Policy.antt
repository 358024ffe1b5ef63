-- ===== src/Examples/Policy.antt =====
-- The policies at concrete inputs.
use text.Mathlib.TextEquality.{eq_iff}
use ynab_agent.Common.{
  ◌≤◌, ◌≡◌, ◌↔◌, refl, false, some, List, [], ◌∷◌, count, filter, ok, arith, sum,
}
use ynab_agent.Common.Int.{pos, abs}
use ynab_agent.Domain.Money.{from_milliunits}
use ynab_agent.Domain.Allocation.{ResolvedAllocation, ProposedIsValid, proposed_split}
use ynab_agent.Domain.Proposal.{Decision}
use ynab_agent.Domain.Transaction.{is_unbalanced, is_matched_import, enriching}
use ynab_agent.Domain.Event.{enriched, auto_apply}
use ynab_agent.Lifecycle.{advance}
use ynab_agent.Lifecycle.Validity.{Returns}
use ynab_agent.Policy.Resolve.{resolve_allocation}
use ynab_agent.Policy.Resolve.Balance.{resolve_allocation_balanced}
use ynab_agent.Policy.Floor.{FloorVerdict, check_floor}
use ynab_agent.Policy.AutoActions.{AutoActionLedgerState, counters, run_window, day_window}
use ynab_agent.Policy.AutoActions.Breaker.{IsBound}
use ynab_agent.Policy.AutoActions.Writes.{Attempt, auto_writes, is_fresh, auto_writes_capped}
use ynab_agent.Policy.Gate.{
  auto, blessed_rules, matching_rules, rule_matches, payee_matches, evaluate_gate,
  build_auto_decision,
}
use ynab_agent.Common.Text.{is_in}
use ynab_agent.Domain.Money
use ynab_agent.Policy.Gate.Autonomy.{
  NamesSole, evaluate_gate_auto_iff, build_auto_decision_accepted,
}
use ynab_agent.Examples.Samples.{
  now, windows, charge, coffee, template, blessed_rule, cautious, no_actions, same_text,
  enriching_txn,
}

template-IsValid : ProposedIsValid template
unfolding proposed_split sum
template-IsValid = record {
  accepted = refl;
  shares = (tt, ((omega arith, omega arith), ((omega arith, omega arith), tt)));
}

resolve_allocation_balanced_example :
    (r : ResolvedAllocation) × (resolve_allocation template charge ≡ ok r)
    × (is_unbalanced r charge ≡ false)
resolve_allocation_balanced_example = resolve_allocation_balanced template charge template-IsValid

abbrev ledger : AutoActionLedgerState
ledger = record {
  entries = record { ynab_id = "t0"; at = pos 0 } ∷ record { ynab_id = "t1"; at = pos 5 } ∷ [];
}

abbrev burst : List Attempt
burst =
    record { ynab_id = "t1"; amount = some charge; at = pos 10 }
    ∷ record { ynab_id = "t2"; amount = some charge; at = pos 20 }
    ∷ []

abbrev empty_ledger : AutoActionLedgerState
empty_ledger = record { entries = [] }

empty_ledger-IsBound : IsBound cautious empty_ledger (pos 0)
unfolding counters count
empty_ledger-IsBound = record { run_bound = omega arith; day_bound = omega arith }

auto_writes_capped_example :
    (count (is_fresh now run_window) (auto_writes cautious empty_ledger burst)
      ≤ cautious.per_run_cap)
    × (count (is_fresh now day_window) (auto_writes cautious empty_ledger burst)
        ≤ cautious.per_day_cap)
auto_writes_capped_example =
    auto_writes_capped cautious burst empty_ledger (pos 0) now
      (omega arith, (omega arith, omega arith))
      (((λ e. ground (arith, eq_iff "t2" "t1")), tt), (tt, tt)) empty_ledger-IsBound

evaluate_gate_auto_iff_example :
    let outcome = evaluate_gate same_text coffee (blessed_rule ∷ []) no_actions cautious in
    ((outcome.verdict ≡ auto) × (outcome.rule_id ≡ some "r1")) ↔ (
      (check_floor (some charge) no_actions cautious ≡ FloorVerdict.allow)
      × (is_matched_import coffee ≡ false)
      × NamesSole (blessed_rules same_text (blessed_rule ∷ []) coffee) (some "r1"))
evaluate_gate_auto_iff_example =
    evaluate_gate_auto_iff same_text coffee (blessed_rule ∷ []) no_actions cautious (some "r1")

-- The gate does grant the coffee charge to its blessed rule.
gate_grants :
    let outcome = evaluate_gate same_text coffee (blessed_rule ∷ []) no_actions cautious in
    (outcome.verdict ≡ auto) × (outcome.rule_id ≡ some "r1")
unfolding evaluate_gate check_floor blessed_rules matching_rules rule_matches payee_matches filter
    is_in Money.lt Money.magnitude abs
gate_grants = (refl, refl)

build_auto_decision_accepted_example :
    (d : Decision) × (build_auto_decision blessed_rule coffee now ≡ ok d)
    × Returns (advance now windows (enriching enriching_txn) (enriched (auto_apply d)))
build_auto_decision_accepted_example =
    build_auto_decision_accepted blessed_rule enriching_txn now windows tt
