-- ===== src/Join/Ledger.antt =====
-- workflow/receipt_ledger_workflow.py: the durable table of receipts. Temporal serializes its
-- signals, so a history is a list of them; continue-as-new hands the state on unchanged.
pub mod Reachable
use ynab_agent.Common.{String, List, [], ◌∷◌}
use ynab_agent.Domain.Enums.{ReceiptStatus}
use ynab_agent.Domain.Signal.{Receipt}
use ynab_agent.Join.Store.{ReceiptLedgerState, park_receipt, set_status}

pub data LedgerSignal : Type 0 where
  park : Receipt → LedgerSignal
  set_status_to : String → ReceiptStatus → LedgerSignal

abbrev pub empty_ledger : ReceiptLedgerState
empty_ledger = record { receipts = [] }

-- One signal handler.
unfoldable pub handle : ReceiptLedgerState → LedgerSignal → ReceiptLedgerState
handle state (park receipt) = park_receipt state receipt
handle state (set_status_to receipt_id status) = set_status state receipt_id status

-- The state after a history of signals.
unfoldable pub replay : ReceiptLedgerState → List LedgerSignal → ReceiptLedgerState
replay state [] = state
replay state (signal ∷ signals) = replay (handle state signal) signals
