-- ===== src/Budget/Balance/Guard/Fallback.antt =====
-- The planner's own option against the guard.
use ynab_agent.Common.{
  ◌≡◌, ◌≢◌, refl, sym, ap, ◌∙◌, String-discrete, Option, none, some, List, [], ◌∷◌, inl, inr, test,
  All, All-imp, All-append, if◌then◌else◌, Bool-cases, arith, filter,
}
use ynab_agent.Common.Int.{ℤ, pos, ◌+ℤ◌, ◌≤ℤ◌, ◌<ℤ◌, leb_ℤ, +ℤ_parts, +ℤ-zero}
use ynab_agent.Common.Sort.{sorted_by}
use mathlib.Core.Path.{subst}
use ynab_agent.Domain.Ids.{CategoryId}
use ynab_agent.Domain.Money.{Money, zero_money}
use ynab_agent.Policy.Floor.{FloorPolicy}
use ynab_agent.Budget.Balance.{Need, Source, drawable, BudgetMove, BalanceOption}
use ynab_agent.Budget.Balance.Planner.{
  amounts_from, amounts_of, set_amount, no_amounts, compare_sources, Drawing, draw_once, plan_needs,
  start_pool, plan_coverage, option_of, fallback_option, close_need,
}
use ynab_agent.Budget.Balance.Pool.{
  pulled, IsCapped, sparable, plan_coverage_within, cover_need_inv,
}
use ynab_agent.Budget.Balance.Accounts.{moved}
use ynab_agent.Budget.Balance.Coverage.{asked, wanted, owed, plan_coverage_balances}
use ynab_agent.Budget.Balance.Guard.{
  Mapping, get_or, slack_limit, mapping_from, mapping_of, validate_option, feasible_options,
}
use ynab_agent.Budget.Balance.Guard.Approved.{IsHeld}
use ynab_agent.Budget.Balance.Guard.Validated.{AllTo, Valid, validate_option-none_iff}

-- A source that gives no more than it holds.
abbrev pub IsFunded : Source → Type 0
IsFunded source = (drawable source).milliunits ≤ℤ source.available.milliunits

mapping-amounts :
    (p : Source → Money) (sources : List Source) (f : Mapping) (g : CategoryId → Money)
    → ((c : CategoryId) → get_or (f c) zero_money ≡ g c)
    → (c : CategoryId) → get_or (mapping_from p f sources c) zero_money ≡ amounts_from p g sources c
unfolding mapping_from amounts_from set_amount
mapping-amounts p [] f g h c = h c
mapping-amounts p (source ∷ sources) f g h c =
    mapping-amounts p sources _ _
      (λ k. elim (Bool-cases (test (String-discrete k source.category))) [
        | inl same ↦ rw same refl
        | inr other ↦ rw other (h k)
      ])
      c

-- The dictionary of a comprehension, read with zero as its default.
mapping_of-amounts :
    (p : Source → Money) (sources : List Source) (c : CategoryId)
    → get_or (mapping_of p sources c) zero_money ≡ amounts_of p sources c
mapping_of-amounts p sources c = mapping-amounts p sources (λ k. none) no_amounts (λ k. refl) c

funded_amounts :
    (sources : List Source) (f g : CategoryId → Money)
    → All IsFunded sources
    → ((c : CategoryId) → (f c).milliunits ≤ℤ (g c).milliunits)
    → (c : CategoryId)
    → (amounts_from drawable f sources c).milliunits
      ≤ℤ (amounts_from (λ s. s.available) g sources c).milliunits
unfolding amounts_from set_amount
funded_amounts [] f g a h c = h c
funded_amounts (source ∷ sources) f g a h c =
    funded_amounts sources _ _ a.1
      (λ k. elim (Bool-cases (test (String-discrete k source.category))) [
        | inl same ↦ rw same a.0
        | inr other ↦ rw other (h k)
      ])
      c

pulled_nonneg :
    (c : CategoryId) (ceiling : Money) (moves : List BudgetMove)
    → All (IsCapped ceiling) moves
    → pos 0 ≤ℤ pulled c moves
unfolding pulled
pulled_nonneg c ceiling [] a = omega arith
pulled_nonneg c ceiling (move ∷ moves) a =
    ground
      (arith, pulled_nonneg c ceiling moves a.1, +ℤ_parts move.amount.milliunits (pulled c moves))

pulled_more :
    (c : CategoryId) (ceiling : Money) (move : BudgetMove) (moves : List BudgetMove)
    → IsCapped ceiling move
    → pos 0 <ℤ pulled c moves
    → pos 0 <ℤ pulled c (move ∷ moves)
unfolding pulled
pulled_more c ceiling move moves a h =
    ground (arith, +ℤ_parts move.amount.milliunits (pulled c moves))

pulled_first :
    (ceiling : Money) (move : BudgetMove) (moves : List BudgetMove)
    → All (IsCapped ceiling) (move ∷ moves)
    → pos 0 <ℤ pulled move.source (move ∷ moves)
unfolding pulled
pulled_first ceiling move moves a = ground (
  arith,
  pulled_nonneg move.source ceiling moves a.1,
  +ℤ_parts move.amount.milliunits (pulled move.source moves),
)

-- A source that a positive move names gives something.
pulled_positive :
    (ceiling : Money) (moves : List BudgetMove)
    → All (IsCapped ceiling) moves
    → All (λ move. pos 0 <ℤ pulled move.source moves) moves
pulled_positive ceiling [] a = tt
pulled_positive ceiling (move ∷ moves) a = (
  pulled_first ceiling move moves a,
  All-imp (λ m. pos 0 <ℤ pulled m.source moves) (λ m. pos 0 <ℤ pulled m.source (move ∷ moves))
      (λ m h. pulled_more m.source ceiling move moves a.0 h) moves
      (pulled_positive ceiling moves a.1),
)

held_by :
    (p : ℤ) (d a : Money) (m : Option Money)
    → pos 0 <ℤ p
    → p ≤ℤ (if leb_ℤ (pos 0) d.milliunits then d.milliunits else pos 0)
    → d.milliunits ≤ℤ a.milliunits
    → get_or m zero_money ≡ d
    → (p ≤ℤ a.milliunits) × (p ≤ℤ (get_or m a).milliunits)
held_by p d a none h s f e = (ground arith, ground arith)
held_by p d a (some x) h s f e = (ground arith, ground arith)

abbrev holdings : List Source → Mapping
holdings sources = mapping_of (λ s. s.available) sources

abbrev slacks : List Source → Option Mapping
slacks sources = some (mapping_of drawable sources)

sparable-IsHeld :
    (sources : List Source) (c : CategoryId) (z : ℤ)
    → All IsFunded sources
    → pos 0 <ℤ z
    → z ≤ℤ sparable sources c
    → IsHeld (holdings sources) (slacks sources) c z
unfolding slack_limit
sparable-IsHeld sources c z f p h =
    held_by z (amounts_of drawable sources c) (get_or (holdings sources c) zero_money)
      (mapping_of drawable sources c) p h
      (rw (mapping_of-amounts (λ s. s.available) sources c)
        (funded_amounts sources no_amounts no_amounts f (λ k. omega arith) c))
      (mapping_of-amounts drawable sources c)

-- The moves for one need all go to it.
draw_once-AllTo :
    (ceiling : Money) (destination source : CategoryId) (d : Drawing)
    → AllTo destination d.pool.moves
    → AllTo destination (draw_once ceiling destination source d).pool.moves
unfolding draw_once
draw_once-AllTo ceiling destination source d a =
    All-append (λ move. move.destination ≡ destination) d.pool.moves _ a (refl, tt)

plan_coverage-AllTo :
    (need : Need) (sources : List Source) (ceiling : Money)
    → AllTo need.category (plan_coverage (need ∷ []) sources ceiling).moves
unfolding plan_coverage plan_needs close_need
plan_coverage-AllTo need sources ceiling =
    cover_need_inv (λ d. AllTo need.category d.pool.moves) ceiling need.category
      (λ source d on a. draw_once-AllTo ceiling need.category source d a)
      (sorted_by compare_sources sources)
      (record { pool = start_pool sources; shortfall = need.shortfall }) tt

asked_enough :
    (need : Need) (z : ℤ) → z +ℤ pos 0 ≡ asked need +ℤ pos 0 → need.shortfall.milliunits ≤ℤ z
asked_enough need z e = ground (arith, +ℤ-zero z, +ℤ-zero (asked need))

plan-covers :
    (need : Need) (sources : List Source) (ceiling : Money)
    → (plan_coverage (need ∷ []) sources ceiling).uncovered ≡ []
    → need.shortfall.milliunits ≤ℤ moved (plan_coverage (need ∷ []) sources ceiling).moves
unfolding wanted owed
plan-covers need sources ceiling e =
    asked_enough need (moved (plan_coverage (need ∷ []) sources ceiling).moves) (
      ap (λ u. moved (plan_coverage (need ∷ []) sources ceiling).moves +ℤ owed u) (sym e)
      ∙ plan_coverage_balances (need ∷ []) sources ceiling)

-- What an option of a plan says of it.
option_of-plan :
    (moves : List BudgetMove) (uncovered : List Need) {option : BalanceOption}
    → option_of (record { moves = moves; uncovered = uncovered }) ≡ some option
    → (uncovered ≡ []) × (moves ≢ []) × (option.moves ≡ moves)
option_of-plan [] [] h = cc
option_of-plan (move ∷ moves) [] h = (refl, λ e. cc, cc)
option_of-plan [] (need ∷ uncovered) h = cc
option_of-plan (move ∷ moves) (need ∷ uncovered) h = cc

plan-Valid :
    (need : Need) (sources : List Source) (policy : FloorPolicy)
    → All IsFunded sources
    → let plan = plan_coverage (need ∷ []) sources policy.per_move_ceiling in
      plan.uncovered ≡ []
      → plan.moves ≢ []
      → Valid (holdings sources) (slacks sources) policy need plan.moves
plan-Valid need sources policy f e n =
    let plan = plan_coverage (need ∷ []) sources policy.per_move_ceiling in
    let (capped, within) = plan_coverage_within (need ∷ []) sources policy.per_move_ceiling in
    record {
      allowed = record {
        some_moves = n;
        capped = capped;
        held =
            All-imp (λ move. pos 0 <ℤ pulled move.source plan.moves)
              (λ move.
                IsHeld (holdings sources) (slacks sources) move.source
                  (pulled move.source plan.moves))
              (λ move p. sparable-IsHeld sources move.source _ f p (within move.source)) plan.moves
              (pulled_positive policy.per_move_ceiling plan.moves capped);
      };
      destination = plan_coverage-AllTo need sources policy.per_move_ceiling;
      covers = plan-covers need sources policy.per_move_ceiling e;
    }

fallback-validated :
    (need : Need) (sources : List Source) (policy : FloorPolicy) {option : BalanceOption}
    → All IsFunded sources
    → fallback_option need sources policy.per_move_ceiling ≡ some option
    → validate_option option need (holdings sources) policy (slacks sources) ≡ none
unfolding fallback_option
fallback-validated need sources policy {option} f h =
    let plan = plan_coverage (need ∷ []) sources policy.per_move_ceiling in
    let (covered, n, same) = option_of-plan plan.moves plan.uncovered h in
    (validate_option-none_iff option need (holdings sources) policy (slacks sources)).1 (
      subst (Valid (holdings sources) (slacks sources) policy need) (sym same)
        (plan-Valid need sources policy f covered n))

-- The safety net passes the guard: where no source gives more than it holds, the greedy planner's
-- fallback, if there is one, is among the feasible options.
pub fallback_option_feasible :
    (need : Need) (sources : List Source) (policy : FloorPolicy) {option : BalanceOption}
    → All IsFunded sources
    → fallback_option need sources policy.per_move_ceiling ≡ some option
    → feasible_options (option ∷ []) need sources policy ≡ option ∷ []
unfolding feasible_options filter
fallback_option_feasible need sources policy f h = rw (fallback-validated need sources policy f h)
