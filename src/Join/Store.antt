-- ===== src/Join/Store.antt =====
-- join/store.py: the table of parked receipts.
pub mod Table
pub mod Aging
use ynab_agent.Common.{
  ℕ, ◌-◌, String, String-discrete, Bool, true, false, not, Option, List, [], ◌∷◌, ◌++◌, map, filter,
  find?, any, take, take_last, length, leb, test, if◌then◌else◌,
}
use ynab_agent.Common.Int.{ltb_ℤ}
use ynab_agent.Domain.Enums.{ReceiptStatus, parked, matched, asked, expired}
use ynab_agent.Domain.Signal.{Receipt, Receipt-discrete}

abbrev pub ledger_cap : ℕ
ledger_cap = 100

-- `status in _OPEN_STATUSES`
abbrev pub is_open_status : ReceiptStatus → Bool
is_open_status parked = true
is_open_status asked = true
is_open_status _ = false

abbrev pub is_open : Receipt → Bool
is_open r = is_open_status r.status

pub record ReceiptLedgerState : Type 0 where
  pub receipts : List Receipt

-- `str(r.id) == receipt_id`
unfoldable pub has_id : String → Receipt → Bool
has_id receipt_id r = test (String-discrete r.id receipt_id)

-- One step of `sorted(..., key=lambda r: r.parked_at)`: before the first that is parked later, so
-- that the sort is stable.
unfoldable pub insert_oldest : Receipt → List Receipt → List Receipt
insert_oldest r [] = r ∷ []
insert_oldest r (x ∷ xs) =
    let rest = insert_oldest r xs in if ltb_ℤ x.parked_at r.parked_at then x ∷ rest else r ∷ x ∷ xs

unfoldable pub oldest_first : List Receipt → List Receipt
oldest_first [] = []
oldest_first (r ∷ rs) = insert_oldest r (oldest_first rs)

-- `r.id in {d.id for d in terminal_oldest_first[:overflow]}`
unfoldable pub is_dropped : List Receipt → Receipt → Bool
unfolding has_id
is_dropped gone r = any (has_id r.id) gone

-- The receipts that age off: of the settled ones, the oldest.
unfoldable pub dropped : List Receipt → List Receipt
unfolding oldest_first insert_oldest
dropped table =
    take (length table - ledger_cap) (oldest_first (filter (λ r. not (is_open r)) table))

-- The receipts whose ids do not age off.
unfoldable pub kept : List Receipt → List Receipt
unfolding dropped is_dropped
kept table = filter (λ r. not (is_dropped (dropped table) r)) table

-- `_bounded`
unfoldable pub bounded : List Receipt → List Receipt
unfolding kept
bounded table = if leb (length table) ledger_cap then table else take_last ledger_cap (kept table)

-- `park`
unfoldable pub park_receipt : ReceiptLedgerState → Receipt → ReceiptLedgerState
unfolding bounded has_id
park_receipt state receipt =
    if any (has_id receipt.id) state.receipts
    then state
    else record { receipts = bounded (state.receipts ++ receipt ∷ []) }

unfoldable pub with_status : String → ReceiptStatus → Receipt → Receipt
unfolding has_id
with_status receipt_id status r = if has_id receipt_id r then record r { status = status } else r

pub Receipts-discrete : Discrete (List Receipt)
Receipts-discrete = hlevel Receipt-discrete

-- `set_status`
unfoldable pub set_status : ReceiptLedgerState → String → ReceiptStatus → ReceiptLedgerState
unfolding with_status
set_status state receipt_id status =
    let updated = map (with_status receipt_id status) state.receipts in
    if test (Receipts-discrete updated state.receipts) then state else record { receipts = updated }

-- `get`
unfoldable pub get : ReceiptLedgerState → String → Option Receipt
unfolding has_id
get state receipt_id = find? (has_id receipt_id) state.receipts

-- `open_receipts`
unfoldable pub open_receipts : ReceiptLedgerState → List Receipt
open_receipts state = filter is_open state.receipts
