-- ===== src/Budget/Balance/Guard/Validated.antt =====
-- What the guard over a proposed option lets through.
use ynab_agent.Common.{
  ◌≡◌, ◌≢◌, refl, sym, ap, ◌∙◌, Option, none, some, List, [], ◌∷◌, ◌↔◌, ◌⊎◌, inl, inr, All,
  if◌then◌else◌, arith, is_empty,
}
use ynab_agent.Common.Int.{ℤ, ◌+ℤ◌, ◌≤ℤ◌, +ℤ_assoc, zero-+ℤ, +ℤ-zero, abs}
use ynab_agent.Domain.Ids.{CategoryId}
use ynab_agent.Domain.Money
use ynab_agent.Domain.Money.{Money, zero_money}
use ynab_agent.Policy.Floor.{FloorPolicy}
use ynab_agent.Budget.Balance.{Need, BudgetMove, BalanceOption, OptionRejection, does_not_cover}
use ynab_agent.Budget.Balance.Sums.{update}
use ynab_agent.Budget.Balance.Pool.{IsCapped}
use ynab_agent.Budget.Balance.Accounts.{moved}
use ynab_agent.Budget.Balance.Guard.{
  Mapping, add_to, pulled_from, pulled_by_source, check_pulls, Tally, tally_moves, check_tally,
  validate_option,
}
use ynab_agent.Budget.Balance.Guard.Approved.{
  Allowed, pulls-held, held-pulls, or_then-none, or_then_none,
}

-- The moves go to one category.
abbrev pub AllTo : CategoryId → List BudgetMove → Type 0
AllTo category moves = All (λ move. move.destination ≡ category) moves

abbrev tally_one : BudgetMove → Tally → Tally
tally_one move tally = record {
  pulled = update move.source (add_to move.amount) tally.pulled;
  covered = Money.add tally.covered move.amount;
}

-- The tally where no move is refused.
unfoldable tally_all : List BudgetMove → Tally → Tally
tally_all [] tally = tally
tally_all (move ∷ moves) tally = tally_all moves (tally_one move tally)

tally_all-pulled :
    (moves : List BudgetMove) (tally : Tally)
    → (tally_all moves tally).pulled ≡ pulled_from tally.pulled moves
unfolding tally_all pulled_from
tally_all-pulled [] tally = refl
tally_all-pulled (move ∷ moves) tally = tally_all-pulled moves (tally_one move tally)

tally_all-covered :
    (moves : List BudgetMove) (tally : Tally)
    → (tally_all moves tally).covered.milliunits ≡ tally.covered.milliunits +ℤ moved moves
unfolding tally_all moved Money.add
tally_all-covered [] tally = sym (+ℤ-zero tally.covered.milliunits)
tally_all-covered (move ∷ moves) tally =
    tally_all-covered moves (tally_one move tally)
    ∙ +ℤ_assoc tally.covered.milliunits move.amount.milliunits (moved moves)

-- What a loop that goes through says of the moves.
record Tallied (policy : FloorPolicy) (category : CategoryId) (moves : List BudgetMove)
    (tally end : Tally) : Type 0 where
  capped : All (IsCapped policy.per_move_ceiling) moves
  destination : AllTo category moves
  result : tally_all moves tally ≡ end

module _ (policy : FloorPolicy) (category : CategoryId) where
  tally_moves-Tallied :
      (moves : List BudgetMove) (tally : Tally) {end : Tally}
      → tally_moves policy category moves tally ≡ inr end
      → Tallied policy category moves tally end
  unfolding tally_moves tally_all Money.lt Money.le Money.magnitude abs
  tally_moves-Tallied [] tally h = record { capped = tt; destination = tt; result = cc }
  tally_moves-Tallied (move ∷ moves) tally {end} h =
      let rest : Tallied policy category moves (tally_one move tally) end =
        tally_moves-Tallied moves (tally_one move tally) (ground arith) in
      record {
        capped = ((ground arith, ground arith), rest.capped);
        destination = (ground arith, rest.destination);
        result = rest.result;
      }

  tally_moves-all :
      (moves : List BudgetMove) (tally : Tally)
      → All (IsCapped policy.per_move_ceiling) moves
      → AllTo category moves
      → tally_moves policy category moves tally ≡ inr (tally_all moves tally)
  unfolding tally_moves tally_all Money.lt Money.le Money.magnitude abs
  tally_moves-all [] tally c d = refl
  tally_moves-all (move ∷ moves) tally c d =
      ground (arith, tally_moves-all moves (tally_one move tally) c.1 d.1)

-- What a valid option is.
pub record Valid (available : Mapping) (caps : Option Mapping) (policy : FloorPolicy) (need : Need)
    (moves : List BudgetMove) : Type 0 where
  pub allowed : Allowed available caps policy moves
  pub destination : AllTo need.category moves
  pub covers : need.shortfall.milliunits ≤ℤ moved moves

covered_enough :
    (covered shortfall : Money) (z : ℤ)
    → covered.milliunits ≡ z
    → (if Money.lt covered shortfall then some does_not_cover else none) ≡ none
    → shortfall.milliunits ≤ℤ z
unfolding Money.lt
covered_enough covered shortfall z e h = ground arith

enough_covered :
    (covered shortfall : Money) (z : ℤ)
    → covered.milliunits ≡ z
    → shortfall.milliunits ≤ℤ z
    → (if Money.lt covered shortfall then some does_not_cover else none) ≡ none
unfolding Money.lt
enough_covered covered shortfall z e h = ground arith

module _ (available : Mapping) (caps : Option Mapping) (policy : FloorPolicy) (need : Need) where
  abbrev nothing : Tally
  nothing = record { pulled = []; covered = zero_money }

  abbrev checked : List BudgetMove → Option OptionRejection
  checked moves =
      if is_empty moves
      then some OptionRejection.empty
      else check_tally need available caps (tally_moves policy need.category moves nothing)

  nothing-pulled :
      (moves : List BudgetMove) → (tally_all moves nothing).pulled ≡ pulled_by_source moves
  unfolding pulled_by_source
  nothing-pulled moves = tally_all-pulled moves nothing

  nothing-covered :
      (moves : List BudgetMove) → (tally_all moves nothing).covered.milliunits ≡ moved moves
  nothing-covered moves = tally_all-covered moves nothing ∙ zero-+ℤ (moved moves)

  Tallied-Valid :
      (moves : List BudgetMove) (r : OptionRejection ⊎ Tally)
      → moves ≢ []
      → tally_moves policy need.category moves nothing ≡ r
      → check_tally need available caps r ≡ none
      → Valid available caps policy need moves
  unfolding check_tally
  Tallied-Valid moves (inl rejection) n e h = cc
  Tallied-Valid moves (inr end) n e h =
      let (pulls, covers) = or_then-none (check_pulls available caps end.pulled) _ h in
      let t = tally_moves-Tallied policy need.category moves nothing e in
      record {
        allowed = record {
          some_moves = n;
          capped = t.capped;
          held = pulls-held available caps moves (
              ap (check_pulls available caps)
                (sym (nothing-pulled moves) ∙ ap (λ (t : Tally). t.pulled) t.result)
              ∙ pulls);
        };
        destination = t.destination;
        covers =
            covered_enough end.covered need.shortfall (moved moves)
              (ap (λ (t : Tally). t.covered.milliunits) (sym t.result) ∙ nothing-covered moves)
              covers;
      }

  Valid-tally :
      (moves : List BudgetMove)
      → Valid available caps policy need moves
      → check_tally need available caps (tally_moves policy need.category moves nothing) ≡ none
  unfolding check_tally
  Valid-tally moves v =
      rw (tally_moves-all policy need.category moves nothing v.allowed.capped v.destination) (
        or_then_none
          (ap (check_pulls available caps) (nothing-pulled moves)
            ∙ held-pulls available caps moves v.allowed.held)
          (enough_covered (tally_all moves nothing).covered need.shortfall (moved moves)
            (nothing-covered moves) v.covers))

  checked_iff :
      (moves : List BudgetMove) → (checked moves ≡ none) ↔ Valid available caps policy need moves
  checked_iff [] = (λ h. cc, λ v. absurd (v.allowed.some_moves refl))
  checked_iff (move ∷ moves) =
      (λ h. Tallied-Valid (move ∷ moves) _ (λ e. cc) refl h, Valid-tally (move ∷ moves))

-- The guard over the model's proposals lets through exactly the options whose moves may be
-- applied, all fund the needy category, and together cover its shortfall.
pub validate_option-none_iff :
    (option : BalanceOption) (need : Need) (available : Mapping) (policy : FloorPolicy)
    (caps : Option Mapping)
    → (validate_option option need available policy caps ≡ none)
      ↔ Valid available caps policy need option.moves
unfolding validate_option
validate_option-none_iff option need available policy caps =
    checked_iff available caps policy need option.moves
