-- ===== src/Join/Candidates/Fits.antt =====
-- When a transaction fits a receipt, in numbers, and that the exact test says just that.
use text.Mathlib.Text.{starts_with}
use ynab_agent.Common.{◌≡◌, refl, ◌+◌, ◌≤◌, ◌||◌, true, false, Option, none, some, is_none, arith}
use ynab_agent.Common.Int.{
  ℤ, pos, abs, neg, ◌+ℤ◌, ◌-ℤ◌, ◌≤ℤ◌, ◌<ℤ◌, ltb_ℤ, leb_ℤ, +ℤ_parts, -ℤ_parts, neg_parts,
}
use ynab_agent.Domain.Money.{Money}
use ynab_agent.Domain.Ids.{Date}
use ynab_agent.Domain.Signal.{Receipt}
use ynab_agent.Domain.Transaction.{YnabSnapshot}
use ynab_agent.Join.Candidates.{admits, is_exact, days_to, is_soon, is_near, gap_to}

-- A purchase: money went out, and not to another account of the household.
pub record IsPurchase (t : YnabSnapshot) : Type 0 where
  pub outflow : ltb_ℤ t.amount.milliunits (pos 0) ≡ true
  pub spent : starts_with t.payee "Transfer" ≡ false

pub admits-IsPurchase :
    (receipt : Receipt) (t : YnabSnapshot) → admits receipt t ≡ true → IsPurchase t
unfolding admits
admits-IsPurchase receipt t h = ground arith

-- The day of the transaction is at most one from the receipt's, where that has one.
abbrev pub DayFits : Date → Option Date → Type 0
DayFits posted none = Unit
DayFits posted (some date) = (posted ≤ date + 1) × (date ≤ posted + 1)

-- The transaction is that of the receipt: what it spent is the total, give or take 5 milliunits.
pub record Fits (receipt : Receipt) (t : YnabSnapshot) : Type 0 where
  pub total : Money
  pub known : receipt.total ≡ some total
  pub not_over : neg t.amount.milliunits ≤ℤ total.milliunits +ℤ pos 5
  pub not_under : total.milliunits ≤ℤ neg t.amount.milliunits +ℤ pos 5
  pub day : DayFits t.txn_date receipt.date

near_days :
    (posted : Date) (date : Option Date)
    → (is_none (days_to posted date) || is_soon (days_to posted date) 1) ≡ true
    → DayFits posted date
near_days posted none h = tt
near_days posted (some date) h = ground arith

days_near :
    (posted : Date) (date : Option Date)
    → DayFits posted date
    → (is_none (days_to posted date) || is_soon (days_to posted date) 1) ≡ true
days_near posted none h = refl
days_near posted (some date) h = ground arith

near_total :
    (amount total : ℤ)
    → amount <ℤ pos 0
    → leb_ℤ (abs (abs amount -ℤ total)) (pos 5) ≡ true
    → (neg amount ≤ℤ total +ℤ pos 5) × (total ≤ℤ neg amount +ℤ pos 5)
unfolding abs
near_total amount total o h = ground (
  arith,
  -ℤ_parts (abs amount) total,
  +ℤ_parts total (pos 5),
  +ℤ_parts (neg amount) (pos 5),
  neg_parts amount,
)

total_near :
    (amount total : ℤ)
    → amount <ℤ pos 0
    → neg amount ≤ℤ total +ℤ pos 5
    → total ≤ℤ neg amount +ℤ pos 5
    → leb_ℤ (abs (abs amount -ℤ total)) (pos 5) ≡ true
unfolding abs
total_near amount total o a b = ground (
  arith,
  -ℤ_parts (abs amount) total,
  +ℤ_parts total (pos 5),
  +ℤ_parts (neg amount) (pos 5),
  neg_parts amount,
)

near_known :
    (amount : ℤ) (o : Option Money)
    → amount <ℤ pos 0
    → is_near (gap_to amount o) (pos 5) ≡ true
    → (total : Money) × (o ≡ some total)
      × (neg amount ≤ℤ total.milliunits +ℤ pos 5)
      × (total.milliunits ≤ℤ neg amount +ℤ pos 5)
near_known amount none n h = cc
near_known amount (some total) n h =
    let (over, under) = near_total amount total.milliunits n h in (total, refl, over, under)

pub is_exact-Fits :
    (receipt : Receipt) (t : YnabSnapshot)
    → IsPurchase t
    → is_exact receipt t ≡ true
    → Fits receipt t
unfolding is_exact
is_exact-Fits receipt t bought h =
    let (total, known, over, under) =
      near_known t.amount.milliunits receipt.total (ground (arith, bought.outflow))
        (ground arith) in
    record {
      total = total;
      known = known;
      not_over = over;
      not_under = under;
      day = near_days t.txn_date receipt.date (ground arith);
    }

pub Fits-is_exact :
    (receipt : Receipt) (t : YnabSnapshot)
    → IsPurchase t
    → Fits receipt t
    → is_exact receipt t ≡ true
unfolding is_exact
Fits-is_exact receipt t bought f = rw f.known (
    rw
      (total_near t.amount.milliunits f.total.milliunits (ground (arith, bought.outflow)) f.not_over
        f.not_under)
      (days_near t.txn_date receipt.date f.day))
