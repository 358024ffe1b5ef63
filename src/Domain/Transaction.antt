-- ===== src/Domain/Transaction.antt =====
-- domain/transaction.py: a transaction is one of ten states, each with the data valid in it. A
-- state with a validator is built by the function `enter_...`, which may raise.
use ynab_agent.Common.{
  String, Bool, true, false, not, ◌&&◌, Option, List, [], Result, ok, raise, value_error, ◌>>◌,
  is_none, test, if◌then◌else◌,
}
use ynab_agent.Domain.Ids.{
  AccountId, CategoryId, ImportId, PayeeId, ReceiptId, ThreadId, YnabTransactionId, Datetime, Date,
}
use ynab_agent.Domain.Enums.{
  AwaitingFlag, ClearedState, reconciled, DecidedBy, agent, human, FlagColor, RevisingOrigin,
}
use ynab_agent.Domain.Money.{Money, Money-discrete}
use ynab_agent.Domain.Allocation.{ResolvedSplitLine, ResolvedAllocation, category, split, total}
use ynab_agent.Domain.Proposal.{Proposal, Decision}
use ynab_agent.Domain.Signal.{InboundSignal}

pub record YnabSnapshot : Type 0 where
  pub ynab_id : YnabTransactionId
  pub account : AccountId
  pub payee : String
  pub payee_id : Option PayeeId
  pub amount : Money
  pub txn_date : Date
  pub posted_at : Option Datetime
  pub memo : Option String
  pub flag : Option FlagColor
  pub category_id : Option CategoryId
  pub cleared : ClearedState
  pub approved : Bool
  pub month_closed : Bool
  pub import_id : Option ImportId
  pub matched_transaction_id : Option YnabTransactionId
  pub subtransactions : List ResolvedSplitLine

abbrev is_reconciled_state : ClearedState → Bool
is_reconciled_state reconciled = true
is_reconciled_state _ = false

abbrev pub is_reconciled : YnabSnapshot → Bool
is_reconciled snapshot = is_reconciled_state snapshot.cleared

abbrev pub is_categorized : YnabSnapshot → Bool
is_categorized snapshot = not (is_none snapshot.category_id)

abbrev pub is_matched_import : YnabSnapshot → Bool
is_matched_import snapshot = not (is_none snapshot.matched_transaction_id)

pub record TxnCore : Type 0 where
  pub snapshot : YnabSnapshot
  pub thread_id : Option ThreadId
  pub receipt_ids : List ReceiptId
  pub audit_log_ref : Option String

-- `isinstance(allocation, ResolvedSplit) and allocation.total != amount`
unfoldable pub is_unbalanced : ResolvedAllocation → Money → Bool
is_unbalanced (category _) amount = false
is_unbalanced (split s) amount = not (test (Money-discrete (total s) amount))

-- `_ensure_committed`
unfoldable pub ensure_committed : TxnCore → Decision → Result (Unit {0})
ensure_committed core decision =
    if not decision.approved
    then raise value_error
    else if is_unbalanced decision.allocation core.snapshot.amount
    then raise value_error
    else ok tt

pub record Discovered : Type 0 where
  pub ynab_id : YnabTransactionId
  pub thread_id : Option ThreadId
  pub pending : List InboundSignal

pub record HoldAmazon : Type 0 where
  pub core : TxnCore
  pub amazon_deadline : Datetime

pub record Enriching : Type 0 where
  pub core : TxnCore
  pub proposal : Option Proposal

pub record AutoApplied : Type 0 where
  pub core : TxnCore
  pub decision : Decision

pub record AwaitingHuman : Type 0 where
  pub core : TxnCore
  pub patience_deadline : Datetime
  pub proposal : Option Proposal
  pub flag : AwaitingFlag

pub record Applied : Type 0 where
  pub core : TxnCore
  pub decision : Decision

pub record Opened : Type 0 where
  pub core : TxnCore
  pub decision : Decision

pub record Lapsed : Type 0 where
  pub core : TxnCore
  pub proposal : Option Proposal

pub record Revising : Type 0 where
  pub core : TxnCore
  pub instruction : InboundSignal
  pub origin : RevisingOrigin
  pub prior : Option Decision

pub record Archived : Type 0 where
  pub core : TxnCore
  pub final : Option Decision

pub data Transaction : Type 0 where
  discovered : Discovered → Transaction
  hold_amazon : HoldAmazon → Transaction
  enriching : Enriching → Transaction
  auto_applied : AutoApplied → Transaction
  awaiting_human : AwaitingHuman → Transaction
  applied : Applied → Transaction
  opened : Opened → Transaction
  lapsed : Lapsed → Transaction
  revising : Revising → Transaction
  archived : Archived → Transaction

abbrev is_agent : DecidedBy → Bool
is_agent agent = true
is_agent human = false

-- `AutoApplied(core=..., decision=...)`, with its validator.
unfoldable pub enter_auto_applied : TxnCore → Decision → Result Transaction
unfolding ensure_committed
enter_auto_applied core decision =
    if not (is_agent decision.decided_by) then raise value_error else do
      ensure_committed core decision
      ok (auto_applied (record { core = core; decision = decision }))

-- `Applied(core=..., decision=...)`, with its validator.
unfoldable pub enter_applied : TxnCore → Decision → Result Transaction
unfolding ensure_committed
enter_applied core decision = do
  ensure_committed core decision
  ok (applied (record { core = core; decision = decision }))

-- `Open(core=..., decision=...)`, with its validator.
unfoldable pub enter_open : TxnCore → Decision → Result Transaction
unfolding ensure_committed
enter_open core decision = do
  ensure_committed core decision
  ok (opened (record { core = core; decision = decision }))

-- `Archived(core=..., final=...)`, with its validator `_check_archivable`.
unfoldable pub enter_archived : TxnCore → Option Decision → Result Transaction
enter_archived core final =
    if not (is_reconciled core.snapshot)
    then raise value_error
    else if is_none final && not (is_categorized core.snapshot)
    then raise value_error
    else ok (archived (record { core = core; final = final }))

unfoldable pub born : YnabTransactionId → Option ThreadId → Transaction
born ynab_id thread_id =
    discovered (record { ynab_id = ynab_id; thread_id = thread_id; pending = [] })
