-- ===== src/Budget/Balance/Targets/Flow.antt =====
-- The targets against the money that flows into and out of each category.
use ynab_agent.Common.{
  ◌≡◌, ◌≢◌, refl, sym, ap, ◌∙◌, String-discrete, Bool, true, false, none, List, [], ◌∷◌, ok, inl,
  inr, test, All, if◌then◌else◌, Bool-cases, arith,
}
use ynab_agent.Common.Int.{ℤ, pos, ◌+ℤ◌, ◌-ℤ◌, int_laws, +ℤ_assoc, +ℤ-zero, zero-+ℤ}
use ynab_agent.Domain.Ids.{CategoryId}
use ynab_agent.Domain.Money
use ynab_agent.Domain.Money.{Money, zero_money, from_milliunits}
use ynab_agent.Budget.Balance.{BudgetMove, ready_to_assign_source}
use ynab_agent.Budget.Balance.Sums.{
  Entry, update, amount_at, amount_at-update, Keys, Keys-update, Distinct, Distinct-update,
}
use ynab_agent.Budget.Balance.Guard.{Mapping, add_to}
use ynab_agent.Budget.Balance.Targets.Written.{find_entry, target_for, Written-all}
use ynab_agent.Budget.Balance.Targets.{
  take_from, is_unassigned, add_move, deltas_from, move_targets,
}

-- What a move changes in a category: it raises its destination, and lowers its source unless that
-- is Ready to Assign.
abbrev pub effect_on : CategoryId → BudgetMove → ℤ
effect_on c move =
    let gain =
      if test (String-discrete c move.destination) then move.amount.milliunits else pos 0 in
    let left =
      if test (String-discrete c move.source) then gain -ℤ move.amount.milliunits else gain in
    if test (String-discrete move.source ready_to_assign_source) then gain else left

-- The net flow into a category.
unfoldable pub flow : CategoryId → List BudgetMove → ℤ
flow c [] = pos 0
flow c (move ∷ moves) = effect_on c move +ℤ flow c moves

raise_lower :
    (r d s : Bool) (x a : ℤ)
    → (if r
        then (if d then x +ℤ a else x)
        else (if s then (if d then x +ℤ a else x) -ℤ a else (if d then x +ℤ a else x)))
      ≡ x
        +ℤ (if r
            then (if d then a else pos 0)
            else (if s then (if d then a else pos 0) -ℤ a else (if d then a else pos 0)))
raise_lower true true s x a = refl
raise_lower true false s x a = sym (+ℤ-zero x)
raise_lower false true true x a = omega int_laws
raise_lower false true false x a = refl
raise_lower false false true x a = omega int_laws
raise_lower false false false x a = sym (+ℤ-zero x)

at-add_move :
    (c : CategoryId) (move : BudgetMove) (delta : List Entry)
    → (amount_at c (add_move move delta)).milliunits
      ≡ (amount_at c delta).milliunits +ℤ effect_on c move
unfolding add_move is_unassigned Money.add Money.sub
at-add_move c move delta =
    let raised = update move.destination (add_to move.amount) delta in
    ground (
      arith,
      amount_at-update c move.source (take_from move.amount) raised,
      amount_at-update c move.destination (add_to move.amount) delta,
    )
    ∙ raise_lower (test (String-discrete move.source ready_to_assign_source))
        (test (String-discrete c move.destination)) (test (String-discrete c move.source))
        (amount_at c delta).milliunits move.amount.milliunits

at-deltas_from :
    (c : CategoryId) (moves : List BudgetMove) (delta : List Entry)
    → (amount_at c (deltas_from delta moves)).milliunits
      ≡ (amount_at c delta).milliunits +ℤ flow c moves
unfolding deltas_from flow
at-deltas_from c [] delta = sym (+ℤ-zero (amount_at c delta).milliunits)
at-deltas_from c (move ∷ moves) delta =
    at-deltas_from c moves (add_move move delta)
    ∙ ap (λ t. t +ℤ flow c moves) (at-add_move c move delta)
    ∙ +ℤ_assoc (amount_at c delta).milliunits (effect_on c move) (flow c moves)

Distinct-deltas_from :
    (moves : List BudgetMove) (delta : List Entry)
    → Distinct delta
    → Distinct (deltas_from delta moves)
unfolding deltas_from add_move
Distinct-deltas_from [] delta d = d
Distinct-deltas_from (move ∷ moves) delta d =
    let raised = Distinct-update move.destination (add_to move.amount) delta d in
    elim (Bool-cases (is_unassigned move)) [
      | inl e ↦ rw e (Distinct-deltas_from moves _ raised)
      | inr e ↦ rw e (
          Distinct-deltas_from moves _
            (Distinct-update move.source (take_from move.amount) _ raised))
    ]

-- The categories that a move writes are known; Ready to Assign is never written as a source.
abbrev pub Touches : Mapping → BudgetMove → Type 0
Touches current move =
    (current move.destination ≢ none)
    × (move.source ≢ ready_to_assign_source → current move.source ≢ none)

Keys-deltas_from :
    (current : Mapping) (moves : List BudgetMove) (delta : List Entry)
    → Keys (λ key. current key ≢ none) delta
    → All (Touches current) moves
    → Keys (λ key. current key ≢ none) (deltas_from delta moves)
unfolding deltas_from add_move is_unassigned
Keys-deltas_from current [] delta k t = k
Keys-deltas_from current (move ∷ moves) delta k t =
    let raised =
      Keys-update (λ key. current key ≢ none) move.destination (add_to move.amount) delta k t.0.0 in
    elim (Bool-cases (test (String-discrete move.source ready_to_assign_source))) [
      | inl e ↦ rw e (Keys-deltas_from current moves _ raised t.1)
      | inr e ↦
          let differs : move.source ≢ ready_to_assign_source = λ p. ground arith in
          rw e (
            Keys-deltas_from current moves _
              (Keys-update (λ key. current key ≢ none) move.source (take_from move.amount) _ raised
                (t.0.1 differs))
              t.1)
    ]

at-deltas :
    (c : CategoryId) (moves : List BudgetMove)
    → amount_at c (deltas_from [] moves) ≡ from_milliunits (flow c moves)
unfolding amount_at
at-deltas c moves = ap from_milliunits (at-deltas_from c moves [] ∙ zero-+ℤ (flow c moves))

-- Where the budgets of the categories that the moves touch are known, `move_targets` returns, and
-- sets each category to its current budget plus the net flow of the moves through it. A category
-- without a net flow is not written, and a move out of Ready to Assign only raises its destination.
pub move_targets-flow :
    (moves : List BudgetMove) (current : Mapping)
    → All (Touches current) moves
    → (targets : List Entry) × (move_targets moves current ≡ ok targets)
      × ((c : CategoryId)
          → find_entry c targets ≡ target_for (current c) (from_milliunits (flow c moves)))
unfolding move_targets
move_targets-flow moves current t =
    let w =
      Written-all current (deltas_from [] moves) (Distinct-deltas_from moves [] tt)
        (Keys-deltas_from current moves [] tt t) in
    (w.targets, w.returned, λ c. w.values c ∙ ap (target_for (current c)) (at-deltas c moves))
