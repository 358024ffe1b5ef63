-- ===== src/Budget/Balance/Planner.antt =====
-- The greedy planner of budget/balance.py, `plan_coverage`.
use Prim.Native.Nat.{Ordering, compare as compare_ℕ}
use Prim.Native.String.{then as lexicographic}
use ynab_agent.Common.{
  ℕ, zero, suc, String-discrete, Bool, ◌&&◌, Option, none, some, List, [], ◌∷◌, ◌++◌, test,
  if◌then◌else◌, is_empty,
}
use ynab_agent.Common.Int.{pos_part, neg}
use ynab_agent.Common.Order.{compare_ℤ}
use ynab_agent.Common.Sort.{sorted_by}
use ynab_agent.Domain.Ids.{CategoryId}
use ynab_agent.Domain.Money
use ynab_agent.Domain.Money.{Money, zero_money}
use ynab_agent.Budget.Balance.{
  Need, Source, drawable, rank, BudgetMove, CoveragePlan, fully_covered, BalanceOption,
}

-- A `dict` of amounts by category. A category that has none reads as zero, which only `get` with
-- a default asks for: the planner reads the keys of its own sources.
abbrev pub Amounts : Type 0
Amounts = CategoryId → Money

-- `amounts[category] = amount`
unfoldable pub set_amount : CategoryId → Money → Amounts → Amounts
set_amount category amount amounts c =
    if test (String-discrete c category) then amount else amounts c

-- `{source.category: p(source) for source in sources}`, on top of the entries before.
unfoldable pub amounts_from : (Source → Money) → Amounts → List Source → Amounts
amounts_from p amounts [] = amounts
amounts_from p amounts (source ∷ sources) =
    amounts_from p (set_amount source.category (p source) amounts) sources

abbrev pub no_amounts : Amounts
no_amounts category = zero_money

-- `{source.category: p(source) for source in sources}`
abbrev pub amounts_of : (Source → Money) → List Source → Amounts
amounts_of p sources = amounts_from p no_amounts sources

-- The comparison of two keys `(s.priority, -s.drawable.milliunits)`.
unfoldable pub compare_sources : Source → Source → Ordering
compare_sources a b =
    lexicographic (compare_ℕ (rank a.priority) (rank b.priority))
      (compare_ℤ (neg (drawable a).milliunits) (neg (drawable b).milliunits))

-- `_take`
unfoldable pub take_least : Money → Money → Money
take_least available wanted = if Money.lt available wanted then available else wanted

-- What is left in the sources, and the moves made so far.
pub record Pool : Type 0 where
  pub remaining : Amounts
  pub moves : List BudgetMove

-- The variables of the loop over one need's sources.
pub record Drawing : Type 0 where
  pub pool : Pool
  pub shortfall : Money

module _ (ceiling : Money) (destination : CategoryId) where
  -- The amount of the next move out of a source.
  unfoldable pub next_take : CategoryId → Drawing → Money
  unfolding take_least
  next_take source d = take_least (take_least (d.pool.remaining source) d.shortfall) ceiling

  -- The `while` loop goes round: its condition holds, and it does not break.
  unfoldable pub goes_on : CategoryId → Drawing → Bool
  goes_on source d =
      Money.lt zero_money d.shortfall
      && Money.lt zero_money (d.pool.remaining source)
      && Money.lt zero_money (next_take source d)

  -- The body of the `while` loop.
  unfoldable pub draw_once : CategoryId → Drawing → Drawing
  draw_once source d =
      let amount = next_take source d in
      record {
        pool = record {
          remaining =
              set_amount source (Money.sub (d.pool.remaining source) amount) d.pool.remaining;
          moves =
              d.pool.moves
              ++ record { source = source; destination = destination; amount = amount } ∷ [];
        };
        shortfall = Money.sub d.shortfall amount;
      }

  -- The `while` loop over one source, on fuel.
  unfoldable pub draw_from : CategoryId → ℕ → Drawing → Drawing
  draw_from source zero d = d
  draw_from source (suc fuel) d =
      let rest = draw_from source fuel (draw_once source d) in if goes_on source d then rest else d

  -- The loop over one need's sources. Each round of the inner loop covers a milliunit or more, so
  -- that the shortfall's milliunits are fuel enough.
  unfoldable pub cover_need : List Source → Drawing → Drawing
  cover_need [] d = d
  cover_need (source ∷ sources) d =
      let rest =
        cover_need sources (draw_from source.category (pos_part d.shortfall.milliunits) d) in
      if Money.le d.shortfall zero_money then d else rest

-- The variables of the loop over the needs.
pub record Planning : Type 0 where
  pub pool : Pool
  pub uncovered : List Need

-- The end of the loop's body: what is still short is reported.
unfoldable pub close_need : CategoryId → Drawing → List Need → Planning
close_need category d uncovered = record {
  pool = d.pool;
  uncovered =
      if Money.lt zero_money d.shortfall
      then uncovered ++ record { category = category; shortfall = d.shortfall } ∷ []
      else uncovered;
}

-- The loop over the needs.
unfoldable pub plan_needs : Money → List Source → List Need → Planning → Planning
unfolding close_need
plan_needs ceiling ordered [] p = p
plan_needs ceiling ordered (need ∷ needs) p =
    let d =
      cover_need ceiling need.category ordered
        (record { pool = p.pool; shortfall = need.shortfall }) in
    plan_needs ceiling ordered needs (close_need need.category d p.uncovered)

abbrev pub start_pool : List Source → Pool
start_pool sources = record { remaining = amounts_of drawable sources; moves = [] }

-- `plan_coverage`, with the per-move ceiling of its policy.
unfoldable pub plan_coverage : List Need → List Source → Money → CoveragePlan
plan_coverage needs sources ceiling =
    let p =
      plan_needs ceiling (sorted_by compare_sources sources) needs
        (record { pool = start_pool sources; uncovered = [] }) in
    record { moves = p.pool.moves; uncovered = p.uncovered }

-- `not plan.fully_covered or not plan.moves` refuses it.
abbrev pub option_of : CoveragePlan → Option BalanceOption
option_of plan =
    if fully_covered plan
    then (if is_empty plan.moves
        then none
        else some (record {
          label = "Automatic";
          moves = plan.moves;
          rationale =
              "Pull from Ready to Assign first, then buffers, then over-funded categories, in that order.";
        }))
    else none

-- `fallback_option`
unfoldable pub fallback_option : Need → List Source → Money → Option BalanceOption
fallback_option need sources ceiling = option_of (plan_coverage (need ∷ []) sources ceiling)
