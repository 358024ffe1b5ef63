-- ===== src/Examples/Join.antt =====
-- The receipts' join at concrete inputs.
use ynab_agent.Common.{
  ◌≡◌, refl, ◌≤◌, ◌+◌, true, false, String-discrete, find?, none, some, List, [], ◌∷◌, ◌++◌, count,
  any, ok, ◌>>=◌, arith,
}
use ynab_agent.Common.Int.{pos, ◌-ℤ◌}
use ynab_agent.Domain.Ids.{Datetime}
use ynab_agent.Domain.Enums.{parked, matched, asked}
use ynab_agent.Domain.Signal.{Receipt}
use ynab_agent.Join.{
  MatchOutcome, confident_match, ambiguous, no_match, default_receipt_ttl, is_overdue, join_run,
  plan_join, after_action, resulting_status, JoinAction, ask_disambiguation, do_nothing,
  signal_transaction,
}
use ynab_agent.Join.Once.{is_signal, is_closure, is_question, joins, joins_once}
use ynab_agent.Join.Settling.{Settles, overdue-Settles}
use ynab_agent.Join.Store.{ReceiptLedgerState, get, has_id, is_open}
use ynab_agent.Join.Store.Aging.{IsTable}
use ynab_agent.Join.Ledger.{LedgerSignal, park, set_status_to, empty_ledger, replay}
use ynab_agent.Join.Ledger.Reachable.{replay-IsTable}

abbrev grocery : Receipt
grocery = record {
  id = "m1";
  parked_at = pos 0;
  merchant = some "Grocer";
  date = none;
  total = none;
  line_items = [];
  split_notes = none;
  status = parked;
  source_message_id = none;
  source_thread_id = none;
}

abbrev fuel : Receipt
fuel = record grocery { id = "m2"; parked_at = pos 1; status = matched }

abbrev attempts : List (MatchOutcome × Datetime)
attempts =
    (ambiguous ("t1" ∷ "t2" ∷ []), pos 1)
    ∷ (ambiguous ("t1" ∷ "t2" ∷ []), pos 2)
    ∷ (confident_match "t1", pos 3)
    ∷ []

abbrev actions : List JoinAction
actions =
    ask_disambiguation "m1" ("t1" ∷ "t2" ∷ [])
    ∷ do_nothing "disambiguation already asked"
    ∷ signal_transaction "t1" "m1"
    ∷ []

asked_then_matched : joins default_receipt_ttl grocery attempts ≡ ok actions
unfolding joins plan_join is_overdue after_action resulting_status ◌-ℤ◌
asked_then_matched = refl

joins_once_example :
    (count is_signal actions + count is_closure actions ≤ 1) × (count is_question actions ≤ 1)
joins_once_example = joins_once default_receipt_ttl grocery attempts asked_then_matched

abbrev month_later : Datetime
month_later = pos 2_600_000_000_000

grocery_overdue : is_overdue grocery month_later default_receipt_ttl ≡ true
unfolding is_overdue ◌-ℤ◌
grocery_overdue = refl

overdue-Settles_example : Settles (do
  once ← join_run default_receipt_ttl grocery (ambiguous ("t1" ∷ "t2" ∷ [])) month_later
  join_run default_receipt_ttl once no_match month_later)
overdue-Settles_example =
    overdue-Settles default_receipt_ttl grocery (ambiguous ("t1" ∷ "t2" ∷ [])) no_match month_later
      month_later (omega arith) tt grocery_overdue grocery_overdue

abbrev one_receipt : ReceiptLedgerState
one_receipt = record { receipts = grocery ∷ [] }

abbrev other : Receipt
other = record grocery { id = "m3" }

other_is_new : any (has_id "m3") one_receipt.receipts ≡ false
unfolding any has_id String-discrete
other_is_new = refl

grocery_found : get one_receipt "m1" ≡ some grocery
unfolding get find? has_id String-discrete
grocery_found = refl

one_receipt-IsTable : IsTable one_receipt.receipts
one_receipt-IsTable = record { within = omega arith; distinct = (tt, tt) }

two_open : count is_open (one_receipt.receipts ++ other ∷ []) ≤ 100
unfolding count
two_open = omega arith

abbrev signals : List LedgerSignal
signals = park grocery ∷ park fuel ∷ park grocery ∷ set_status_to "m1" asked ∷ []

replay-IsTable_example : IsTable (replay empty_ledger signals).receipts
replay-IsTable_example = replay-IsTable signals
