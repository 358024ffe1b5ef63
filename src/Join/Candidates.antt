-- ===== src/Join/Candidates.antt =====
-- workflow/receipt_activities.py: the transactions that a receipt may belong to, and the match that
-- needs no model.
pub mod Fits
pub mod Matching
use Prim.Native.Nat.{Ordering, compare}
use Prim.Native.String.{then as lexicographic}
use text.Mathlib.Text.{starts_with}
use ynab_agent.Common.{
  ◌≡◌, refl, ℕ, suc, zero, ◌+◌, ◌-◌, ◌≤◌, Bool, true, false, not, ◌&&◌, ◌||◌, Option, none, some,
  List, [], ◌∷◌, length, take, filter, leb, is_none, All, arith, Bool-cases, inl, inr,
  if◌then◌else◌,
}
use ynab_agent.Common.Int.{ℤ, pos, ◌-ℤ◌, abs, ltb_ℤ, leb_ℤ}
use ynab_agent.Common.Order.{compare_ℤ}
use ynab_agent.Common.Sort.{insert_by, sorted_by, is_lt}
use ynab_agent.Domain.Ids.{Date, YnabTransactionId}
use ynab_agent.Domain.Money.{Money}
use ynab_agent.Domain.Signal.{Receipt}
use ynab_agent.Domain.Transaction.{YnabSnapshot}
use ynab_agent.Join.{MatchOutcome, confident_match}

-- `_MAX_CANDIDATES`
abbrev pub max_candidates : ℕ
max_candidates = 12

-- `abs(abs(snapshot.amount.milliunits) - total)`
abbrev pub gap_to : ℤ → Option Money → Option ℤ
gap_to amount none = none
gap_to amount (some total) = some (abs (abs amount -ℤ total.milliunits))

-- `_magnitude_gap`
unfoldable pub magnitude_gap : YnabSnapshot → Receipt → Option ℤ
magnitude_gap snapshot receipt = gap_to snapshot.amount.milliunits receipt.total

-- `abs((a - b).days)`
abbrev pub days_to : Date → Option Date → Option ℕ
days_to posted none = none
days_to posted (some date) = some ((posted - date) + (date - posted))

-- `_date_gap`
unfoldable pub date_gap : YnabSnapshot → Receipt → Option ℕ
date_gap snapshot receipt = days_to snapshot.txn_date receipt.date

-- `gap is not None and gap <= limit`
abbrev pub is_near : Option ℤ → ℤ → Bool
is_near none limit = false
is_near (some gap) limit = leb_ℤ gap limit

-- `days is not None and days <= limit`
abbrev pub is_soon : Option ℕ → ℕ → Bool
is_soon none limit = false
is_soon (some days) limit = leb days limit

-- `admit`: the tolerance is 20 milliunits, the window 3 days.
unfoldable pub admits : Receipt → YnabSnapshot → Bool
unfolding magnitude_gap date_gap
admits receipt snapshot =
    if leb_ℤ (pos 0) snapshot.amount.milliunits
    then false
    else if starts_with snapshot.payee "Transfer"
    then false
    else if is_none (magnitude_gap snapshot receipt) && is_none (date_gap snapshot receipt)
    then true
    else if is_near (magnitude_gap snapshot receipt) (pos 20)
    then true
    else is_soon (date_gap snapshot receipt) 3

-- A missing gap ranks as 10**9.
abbrev pub or_far_ℤ : Option ℤ → ℤ
or_far_ℤ none = pos 1_000_000_000
or_far_ℤ (some gap) = gap

abbrev pub or_far : Option ℕ → ℕ
or_far none = 1_000_000_000
or_far (some days) = days

-- The comparison of two `rank` tuples.
unfoldable pub compare_ranks : Receipt → YnabSnapshot → YnabSnapshot → Ordering
unfolding magnitude_gap date_gap
compare_ranks receipt a b =
    lexicographic
      (compare_ℤ (or_far_ℤ (magnitude_gap a receipt)) (or_far_ℤ (magnitude_gap b receipt)))
      (compare (or_far (date_gap a receipt)) (or_far (date_gap b receipt)))

-- `candidate_pool`
unfoldable pub candidate_pool : Receipt → List YnabSnapshot → List YnabSnapshot
unfolding filter admits sorted_by compare_ranks
candidate_pool receipt transactions =
    take max_candidates (sorted_by (compare_ranks receipt) (filter (admits receipt) transactions))

-- The test of `exact_single_match`: within 5 milliunits, and a day where both dates are known.
unfoldable pub is_exact : Receipt → YnabSnapshot → Bool
unfolding magnitude_gap date_gap
is_exact receipt t =
    is_near (magnitude_gap t receipt) (pos 5)
    && (is_none (date_gap t receipt) || is_soon (date_gap t receipt) 1)

-- `len(exact) == 1`
abbrev pub single : List YnabSnapshot → Option MatchOutcome
single (t ∷ []) = some (confident_match t.ynab_id)
single _ = none

-- `exact_single_match`
unfoldable pub exact_single_match : Receipt → List YnabSnapshot → Option MatchOutcome
unfolding filter is_exact
exact_single_match receipt pool =
    if is_none receipt.total then none else single (filter (is_exact receipt) pool)
