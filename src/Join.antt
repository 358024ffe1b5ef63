-- ===== src/Join.antt =====
-- join/match.py: what to do about a receipt, given the model's verdict, and one run of
-- workflow/receipt_workflow.py.
pub mod Once
pub mod Settling
pub mod Candidates
pub mod Store
pub mod Ledger
use ynab_agent.Common.{
  String, Bool, Option, none, some, List, [], ◌∷◌, length, ltb, Result, raise, ok, value_error,
  ◌>>=◌, if◌then◌else◌,
}
use ynab_agent.Common.Int.{pos, ◌-ℤ◌, ltb_ℤ}
use ynab_agent.Domain.Ids.{YnabTransactionId, ReceiptId, Datetime, Timedelta}
use ynab_agent.Domain.Enums.{ReceiptStatus, parked, matched, asked, expired}
use ynab_agent.Domain.Signal.{Receipt}

-- Thirty days, in microseconds.
abbrev pub default_receipt_ttl : Timedelta
default_receipt_ttl = pos 2_592_000_000_000

pub data MatchOutcome : Type 0 where
  confident_match : YnabTransactionId → MatchOutcome
  ambiguous : List YnabTransactionId → MatchOutcome
  no_match : MatchOutcome

-- `Ambiguous(candidates=...)`, with its `min_length`.
unfoldable pub ambiguous_of : List YnabTransactionId → Result MatchOutcome
ambiguous_of candidates =
    if ltb (length candidates) 2 then raise value_error else ok (ambiguous candidates)

pub data JoinAction : Type 0 where
  signal_transaction : YnabTransactionId → ReceiptId → JoinAction
  ask_disambiguation : ReceiptId → List YnabTransactionId → JoinAction
  ask_no_match : ReceiptId → JoinAction
  park : String → JoinAction
  do_nothing : String → JoinAction

-- `AskDisambiguation(receipt_id=..., candidates=...)`, with its `min_length`.
unfoldable pub ask_of : ReceiptId → List YnabTransactionId → Result JoinAction
ask_of id candidates =
    if ltb (length candidates) 2 then raise value_error else ok (ask_disambiguation id candidates)

-- `now - receipt.parked_at > ttl`
unfoldable pub is_overdue : Receipt → Datetime → Timedelta → Bool
is_overdue receipt now ttl = ltb_ℤ ttl (now -ℤ receipt.parked_at)

-- The `match` of `plan_join`: the receipt's id and status, the verdict, and whether the time is up.
unfoldable pub plan_open : ReceiptId → ReceiptStatus → MatchOutcome → Bool → Result JoinAction
plan_open id status (confident_match txn_id) overdue = ok (signal_transaction txn_id id)
plan_open id asked (ambiguous candidates) overdue =
    if overdue then ok (ask_no_match id) else ok (do_nothing "disambiguation already asked")
plan_open id _ (ambiguous candidates) overdue = ask_of id candidates
plan_open id status no_match overdue =
    if overdue then ok (ask_no_match id) else ok (park "no match yet")

-- `plan_join`, from the status on.
unfoldable pub plan_status : ReceiptId → ReceiptStatus → MatchOutcome → Bool → Result JoinAction
unfolding plan_open ask_of
plan_status id matched outcome overdue = ok (do_nothing "already matched")
plan_status id expired outcome overdue = ok (do_nothing "already aged out")
plan_status id status outcome overdue = plan_open id status outcome overdue

-- `plan_join`
unfoldable pub plan_join : Receipt → MatchOutcome → Datetime → Timedelta → Result JoinAction
unfolding plan_status
plan_join receipt outcome now ttl =
    plan_status receipt.id receipt.status outcome (is_overdue receipt now ttl)

-- `resulting_status`
unfoldable pub resulting_status : JoinAction → Option ReceiptStatus
resulting_status (signal_transaction _ _) = some matched
resulting_status (ask_disambiguation _ _) = some asked
resulting_status (ask_no_match _) = some expired
resulting_status (park _) = none
resulting_status (do_nothing _) = none

-- `new_status or receipt.status`
abbrev pub status_after : Option ReceiptStatus → ReceiptStatus → ReceiptStatus
status_after none status = status
status_after (some new_status) status = new_status

-- The receipt of one run, whose new status is saved.
unfoldable pub after_action : Receipt → JoinAction → Receipt
after_action receipt action = record receipt {
  status = status_after (resulting_status action) receipt.status;
}

-- One run of `ReceiptJoinWorkflow`, whose activities are over.
unfoldable pub join_run : Timedelta → Receipt → MatchOutcome → Datetime → Result Receipt
join_run ttl receipt outcome now = do
  action ← plan_join receipt outcome now ttl
  ok (after_action receipt action)
