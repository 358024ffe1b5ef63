-- ===== src/Join/Ledger/Reachable.antt =====
-- What holds of the table of receipts after any history of signals.
use ynab_agent.Common.{◌≡◌, refl, String, List, [], ◌∷◌, map, length, None, arith}
use ynab_agent.Domain.Enums.{ReceiptStatus}
use ynab_agent.Domain.Signal.{Receipt}
use ynab_agent.Join.Store.{ReceiptLedgerState, has_id, with_status, set_status}
use ynab_agent.Join.Store.Table.{receipts-set_status}
use ynab_agent.Join.Store.Aging.{Distinct, IsTable, park_receipt-IsTable}
use ynab_agent.Join.Ledger.{LedgerSignal, park, set_status_to, empty_ledger, handle, replay}

module _ (id : String) (status : ReceiptStatus) where
  id-with_status : (r : Receipt) → (with_status id status r).id ≡ r.id
  unfolding with_status
  id-with_status r = ground arith

  None-map :
      (k : String) (xs : List Receipt)
      → None (has_id k) xs
      → None (has_id k) (map (with_status id status) xs)
  unfolding has_id
  None-map k [] a = tt
  None-map k (x ∷ xs) a = (rw (id-with_status x) a.0, None-map k xs a.1)

  Distinct-map : (xs : List Receipt) → Distinct xs → Distinct (map (with_status id status) xs)
  Distinct-map [] d = tt
  Distinct-map (x ∷ xs) d = (rw (id-with_status x) (None-map x.id xs d.0), Distinct-map xs d.1)

  length-map : (xs : List Receipt) → length (map (with_status id status) xs) ≡ length xs
  length-map [] = refl
  length-map (x ∷ xs) = omega (arith, length-map xs)

  set_status-IsTable :
      (state : ReceiptLedgerState)
      → IsTable state.receipts
      → IsTable (set_status state id status).receipts
  set_status-IsTable state v = rw (receipts-set_status state id status) (record {
    within = omega (arith, length-map state.receipts, v.within);
    distinct = Distinct-map state.receipts v.distinct;
  })

handle-IsTable :
    (state : ReceiptLedgerState) (signal : LedgerSignal)
    → IsTable state.receipts
    → IsTable (handle state signal).receipts
unfolding handle
handle-IsTable state (park receipt) v = park_receipt-IsTable state receipt v
handle-IsTable state (set_status_to id status) v = set_status-IsTable id status state v

replay-IsTable_from :
    (signals : List LedgerSignal) (state : ReceiptLedgerState)
    → IsTable state.receipts
    → IsTable (replay state signals).receipts
unfolding replay
replay-IsTable_from [] state v = v
replay-IsTable_from (signal ∷ signals) state v =
    replay-IsTable_from signals (handle state signal) (handle-IsTable state signal v)

-- After any history of signals, retries and forwards among them, the table of receipts holds no id
-- twice and at most 100 receipts.
pub replay-IsTable : (signals : List LedgerSignal) → IsTable (replay empty_ledger signals).receipts
replay-IsTable signals =
    replay-IsTable_from signals empty_ledger (record { within = omega arith; distinct = tt })
