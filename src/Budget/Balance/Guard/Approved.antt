-- ===== src/Budget/Balance/Guard/Approved.antt =====
-- What the guards let through.
use ynab_agent.Common.{
  ◌≡◌, ◌≢◌, refl, sym, ap, ◌∙◌, Option, none, some, List, [], ◌∷◌, ◌↔◌, All, All-both, arith,
}
use ynab_agent.Common.Int.{ℤ, ◌≤ℤ◌, zero-+ℤ, abs}
use mathlib.Core.Path.{subst}
use ynab_agent.Domain.Ids.{CategoryId}
use ynab_agent.Domain.Money
use ynab_agent.Domain.Money.{Money, zero_money}
use ynab_agent.Policy.Floor.{FloorPolicy}
use ynab_agent.Budget.Balance.{BudgetMove, OptionRejection}
use ynab_agent.Budget.Balance.Sums.{Entry, amount_at, Distinct-amounts}
use ynab_agent.Budget.Balance.Pool.{pulled, IsCapped}
use ynab_agent.Budget.Balance.Guard.{
  Mapping, get_or, slack_limit, pulled_by_source, check_pulls, check_amounts, check_moves, or_then,
}
use ynab_agent.Budget.Balance.Guard.Pulls.{
  drawn, drawn-pulled_from, Keys-pulled_from, pulled_from-Keys, Distinct-pulled_from,
}

-- An amount that a source holds, and that it may give.
abbrev pub IsHeld : Mapping → Option Mapping → CategoryId → ℤ → Type 0
IsHeld available caps c amount =
    (amount ≤ℤ (get_or (available c) zero_money).milliunits)
    × (amount ≤ℤ (slack_limit c available caps).milliunits)

-- What may be applied: some moves, each positive and within the ceiling, that together pull out of
-- none of their sources more than it holds and may give.
pub record Allowed (available : Mapping) (caps : Option Mapping) (policy : FloorPolicy)
    (moves : List BudgetMove) : Type 0 where
  pub some_moves : moves ≢ []
  pub capped : All (IsCapped policy.per_move_ceiling) moves
  pub held : All (λ move. IsHeld available caps move.source (pulled move.source moves)) moves

module _ (available : Mapping) (caps : Option Mapping) where
  abbrev HeldEntry : Entry → Type 0
  HeldEntry entry = IsHeld available caps entry.key entry.amount.milliunits

  check_pulls-held :
      (entries : List Entry) → check_pulls available caps entries ≡ none → All HeldEntry entries
  unfolding check_pulls Money.lt
  check_pulls-held [] h = tt
  check_pulls-held (entry ∷ entries) h =
      ((ground arith, ground arith), check_pulls-held entries (ground arith))

  held-check_pulls :
      (entries : List Entry) → All HeldEntry entries → check_pulls available caps entries ≡ none
  unfolding check_pulls Money.lt
  held-check_pulls [] h = refl
  held-check_pulls (entry ∷ entries) h = ground (arith, held-check_pulls entries h.1)

  -- The entries' amounts are what the moves pull in all.
  drawn-pulled :
      (moves : List BudgetMove) (c : CategoryId) → drawn c (pulled_by_source moves) ≡ pulled c moves
  unfolding pulled_by_source amount_at
  drawn-pulled moves c = drawn-pulled_from c moves [] ∙ zero-+ℤ (pulled c moves)

  entries-drawn :
      (moves : List BudgetMove)
      → All (λ e. amount_at e.key (pulled_by_source moves) ≡ e.amount) (pulled_by_source moves)
  unfolding pulled_by_source
  entries-drawn moves = Distinct-amounts _ (Distinct-pulled_from moves [] tt)

  abbrev HeldMove : List BudgetMove → BudgetMove → Type 0
  HeldMove moves move = IsHeld available caps move.source (pulled move.source moves)

  pub pulls-held :
      (moves : List BudgetMove)
      → check_pulls available caps (pulled_by_source moves) ≡ none
      → All (HeldMove moves) moves
  unfolding pulled_by_source
  pulls-held moves h =
      (pulled_from-Keys (λ c. IsHeld available caps c (pulled c moves)) moves []
        (All-both HeldEntry (λ e. amount_at e.key (pulled_by_source moves) ≡ e.amount)
          (λ e. IsHeld available caps e.key (pulled e.key moves))
          (λ e held same.
            subst (IsHeld available caps e.key)
              (ap (λ (m : Money). m.milliunits) (sym same) ∙ drawn-pulled moves e.key) held)
          (pulled_by_source moves) (check_pulls-held (pulled_by_source moves) h)
          (entries-drawn moves))).1

  pub held-pulls :
      (moves : List BudgetMove)
      → All (HeldMove moves) moves
      → check_pulls available caps (pulled_by_source moves) ≡ none
  unfolding pulled_by_source
  held-pulls moves h = held-check_pulls (pulled_by_source moves) (
      All-both (λ e. IsHeld available caps e.key (pulled e.key moves))
        (λ e. amount_at e.key (pulled_by_source moves) ≡ e.amount) HeldEntry
        (λ e held same.
          subst (IsHeld available caps e.key)
            (sym (drawn-pulled moves e.key) ∙ ap (λ (m : Money). m.milliunits) same) held)
        (pulled_by_source moves)
        (Keys-pulled_from (λ c. IsHeld available caps c (pulled c moves)) moves [] tt h)
        (entries-drawn moves))

amounts-IsCapped :
    (policy : FloorPolicy) (moves : List BudgetMove)
    → check_amounts policy moves ≡ none
    → All (IsCapped policy.per_move_ceiling) moves
unfolding check_amounts Money.lt Money.le Money.magnitude abs
amounts-IsCapped policy [] h = tt
amounts-IsCapped policy (move ∷ moves) h =
    ((ground arith, ground arith), amounts-IsCapped policy moves (ground arith))

IsCapped-amounts :
    (policy : FloorPolicy) (moves : List BudgetMove)
    → All (IsCapped policy.per_move_ceiling) moves
    → check_amounts policy moves ≡ none
unfolding check_amounts Money.lt Money.le Money.magnitude abs
IsCapped-amounts policy [] h = refl
IsCapped-amounts policy (move ∷ moves) h = ground (arith, IsCapped-amounts policy moves h.1)

pub or_then-none :
    (first rest : Option OptionRejection)
    → or_then first rest ≡ none
    → (first ≡ none) × (rest ≡ none)
or_then-none none rest h = (refl, h)
or_then-none (some _) rest h = cc

pub or_then_none :
    {first rest : Option OptionRejection} → first ≡ none → rest ≡ none → or_then first rest ≡ none
or_then_none f r = rw (f, r) refl

-- The guard over approved moves lets through exactly what may be applied: there are moves, each is
-- positive and within the per-move ceiling, and the sum of the moves out of each source is within
-- the funds that it holds and the slack that it may give.
pub check_moves-none_iff :
    (moves : List BudgetMove) (available : Mapping) (policy : FloorPolicy) (caps : Option Mapping)
    → (check_moves moves available policy caps ≡ none) ↔ Allowed available caps policy moves
unfolding check_moves
check_moves-none_iff [] available policy caps = (λ h. cc, λ a. absurd (a.some_moves refl))
check_moves-none_iff (move ∷ moves) available policy caps =
    let all = move ∷ moves in
    (
      λ h.
          let (amounts, pulls) = or_then-none (check_amounts policy all) _ h in
          record {
            some_moves = λ e. cc;
            capped = amounts-IsCapped policy all amounts;
            held = pulls-held available caps all pulls;
          },
      λ a.
          or_then_none (IsCapped-amounts policy all a.capped)
            (held-pulls available caps all a.held),
    )
