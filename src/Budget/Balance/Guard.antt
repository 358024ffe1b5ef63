-- ===== src/Budget/Balance/Guard.antt =====
-- The guards of budget/balance.py over proposed and approved moves.
pub mod Pulls
pub mod Approved
pub mod Validated
pub mod Fallback
use ynab_agent.Common.{
  String-discrete, Bool, Option, none, some, List, [], ◌∷◌, ◌⊎◌, inl, inr, filter, is_none,
  is_empty, test, if◌then◌else◌, not,
}
use ynab_agent.Domain.Ids.{CategoryId}
use ynab_agent.Domain.Money
use ynab_agent.Domain.Money.{Money, zero_money}
use ynab_agent.Budget.Balance.Sums.{Entry, update}
use ynab_agent.Policy.Floor.{FloorPolicy}
use ynab_agent.Budget.Balance.{
  Need, Source, drawable, BudgetMove, BalanceOption, OptionRejection, empty, wrong_destination,
  over_ceiling, insufficient_source, slack, does_not_cover,
}

-- A `Mapping[CategoryId, Money]`, by what it holds under a key.
abbrev pub Mapping : Type 0
Mapping = CategoryId → Option Money

-- `mapping.get(category, default)`
abbrev pub get_or : Option Money → Money → Money
get_or none default = default
get_or (some amount) default = amount

-- `_slack_limit`
unfoldable pub slack_limit : CategoryId → Mapping → Option Mapping → Money
slack_limit source available none = get_or (available source) zero_money
slack_limit source available (some caps) =
    get_or (caps source) (get_or (available source) zero_money)

-- The step of a sum.
abbrev pub add_to : Money → Money → Money
add_to amount sum = Money.add sum amount

-- The loop of `_pulled_by_source`.
unfoldable pub pulled_from : List Entry → List BudgetMove → List Entry
unfolding update
pulled_from entries [] = entries
pulled_from entries (move ∷ moves) =
    pulled_from (update move.source (add_to move.amount) entries) moves

-- `_pulled_by_source`
unfoldable pub pulled_by_source : List BudgetMove → List Entry
unfolding pulled_from
pulled_by_source moves = pulled_from [] moves

-- The loop over `pulled.items()`.
unfoldable pub check_pulls : Mapping → Option Mapping → List Entry → Option OptionRejection
unfolding slack_limit
check_pulls available caps [] = none
check_pulls available caps (entry ∷ entries) =
    let rest = check_pulls available caps entries in
    if Money.lt (get_or (available entry.key) zero_money) entry.amount
    then some insufficient_source
    else if Money.lt (slack_limit entry.key available caps) entry.amount
    then some slack
    else rest

-- The first loop of `check_moves`.
unfoldable pub check_amounts : FloorPolicy → List BudgetMove → Option OptionRejection
check_amounts policy [] = none
check_amounts policy (move ∷ moves) =
    let rest = check_amounts policy moves in
    if Money.le move.amount zero_money
    then some empty
    else if Money.lt policy.per_move_ceiling (Money.magnitude move.amount)
    then some over_ceiling
    else rest

-- The first of two checks that refuses.
abbrev pub or_then : Option OptionRejection → Option OptionRejection → Option OptionRejection
or_then none rest = rest
or_then (some rejection) rest = some rejection

-- `check_moves`
unfoldable pub check_moves :
    List BudgetMove → Mapping → FloorPolicy → Option Mapping → Option OptionRejection
unfolding check_amounts check_pulls pulled_by_source
check_moves [] available policy caps = some empty
check_moves (move ∷ moves) available policy caps =
    or_then (check_amounts policy (move ∷ moves))
      (check_pulls available caps (pulled_by_source (move ∷ moves)))

-- The variables of the loop over an option's moves.
pub record Tally : Type 0 where
  pub pulled : List Entry
  pub covered : Money

-- The loop over an option's moves: it returns a rejection, or goes through.
unfoldable pub tally_moves :
    FloorPolicy → CategoryId → List BudgetMove → Tally → OptionRejection ⊎ Tally
unfolding update
tally_moves policy category [] tally = inr tally
tally_moves policy category (move ∷ moves) tally =
    let rest = tally_moves policy category moves (record {
      pulled = update move.source (add_to move.amount) tally.pulled;
      covered = Money.add tally.covered move.amount;
    }) in
    if Money.le move.amount zero_money
    then inl empty
    else if not (test (String-discrete move.destination category))
    then inl wrong_destination
    else if Money.lt policy.per_move_ceiling (Money.magnitude move.amount)
    then inl over_ceiling
    else rest

-- What comes after that loop.
unfoldable pub check_tally :
    Need → Mapping → Option Mapping → OptionRejection ⊎ Tally → Option OptionRejection
unfolding check_pulls
check_tally need available caps (inl rejection) = some rejection
check_tally need available caps (inr tally) =
    or_then (check_pulls available caps tally.pulled)
      (if Money.lt tally.covered need.shortfall then some does_not_cover else none)

-- `validate_option`
unfoldable pub validate_option :
    BalanceOption → Need → Mapping → FloorPolicy → Option Mapping → Option OptionRejection
unfolding tally_moves check_tally
validate_option option need available policy caps =
    if is_empty option.moves
    then some empty
    else check_tally need available caps (
        tally_moves policy need.category option.moves
          (record { pulled = []; covered = zero_money }))

-- `{source.category: p(source) for source in sources}`, on top of the entries before.
unfoldable pub mapping_from : (Source → Money) → Mapping → List Source → Mapping
mapping_from p mapping [] = mapping
mapping_from p mapping (source ∷ sources) =
    mapping_from p
      (λ c. if test (String-discrete c source.category) then some (p source) else mapping c) sources

abbrev pub mapping_of : (Source → Money) → List Source → Mapping
mapping_of p sources = mapping_from p (λ c. none) sources

-- `feasible_options`
unfoldable pub feasible_options :
    List BalanceOption → Need → List Source → FloorPolicy → List BalanceOption
unfolding validate_option mapping_from
feasible_options options need sources policy =
    filter
      (λ option. is_none (
        validate_option option need (mapping_of (λ s. s.available) sources) policy
          (some (mapping_of drawable sources))))
      options
