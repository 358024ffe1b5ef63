-- ===== src/Budget/Balance/Targets.antt =====
-- What approved moves write: `move_targets` of budget/balance.py.
pub mod Written
pub mod Flow
use ynab_agent.Common.{
  String-discrete, Bool, Option, none, some, List, [], ◌∷◌, Result, raise, ok, key_error, ◌>>=◌,
  test, if◌then◌else◌,
}
use ynab_agent.Domain.Money
use ynab_agent.Domain.Money.{Money}
use ynab_agent.Budget.Balance.{BudgetMove, ready_to_assign_source}
use ynab_agent.Budget.Balance.Sums.{Entry, update}
use ynab_agent.Budget.Balance.Guard.{Mapping, add_to}

abbrev pub take_from : Money → Money → Money
take_from amount sum = Money.sub sum amount

-- `move.source != READY_TO_ASSIGN_SOURCE`, as its negation.
unfoldable pub is_unassigned : BudgetMove → Bool
is_unassigned move = test (String-discrete move.source ready_to_assign_source)

-- The loop's body.
unfoldable pub add_move : BudgetMove → List Entry → List Entry
unfolding update is_unassigned
add_move move delta =
    let raised = update move.destination (add_to move.amount) delta in
    if is_unassigned move then raised else update move.source (take_from move.amount) raised

-- The loop that fills `delta`.
unfoldable pub deltas_from : List Entry → List BudgetMove → List Entry
unfolding add_move
deltas_from delta [] = delta
deltas_from delta (move ∷ moves) = deltas_from (add_move move delta) moves

-- `mapping[key]`
abbrev pub value_of : Option Money → Result Money
value_of none = raise key_error
value_of (some amount) = ok amount

abbrev pub target_entry : Entry → List Entry → Money → List Entry
target_entry entry rest budgeted =
    record { key = entry.key; amount = Money.add budgeted entry.amount } ∷ rest

-- The entry of a category that changes, before those of the later ones.
abbrev pub kept_entry : Mapping → Entry → Result (List Entry) → Result (List Entry)
kept_entry current entry rest = do
  budgeted ← value_of (current entry.key)
  later ← rest
  ok (target_entry entry later budgeted)

-- The comprehension over `delta.items()`.
unfoldable pub targets_from : Mapping → List Entry → Result (List Entry)
targets_from current [] = ok []
targets_from current (entry ∷ entries) =
    let rest = targets_from current entries in
    if Money.is_zero entry.amount then rest else kept_entry current entry rest

-- `move_targets`
unfoldable pub move_targets : List BudgetMove → Mapping → Result (List Entry)
unfolding deltas_from targets_from
move_targets moves current = targets_from current (deltas_from [] moves)
