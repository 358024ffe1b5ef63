-- ===== src/Domain/Signal.antt =====
-- domain/receipt.py (the data) and domain/signals.py: what W3 and W4 deliver to a transaction.
use native.Mathlib.Decide.{ℕ_discrete}
use ynab_agent.Common.{String, String-discrete, Option, List}
use ynab_agent.Common.Int.{ℤ, ℤ-discrete}
use ynab_agent.Domain.Ids.{MessageId, ReceiptId, ThreadId, Datetime, Date}
use ynab_agent.Domain.Enums.{ReceiptStatus}
use ynab_agent.Domain.Money.{Money, Money-discrete}

pub record ReceiptLineItem : Type 0 where
  pub description : String
  pub amount : Option Money
  pub quantity : Option ℤ

pub record Receipt : Type 0 where
  pub id : ReceiptId
  pub parked_at : Datetime
  pub merchant : Option String
  pub date : Option Date
  pub total : Option Money
  pub line_items : List ReceiptLineItem
  pub split_notes : Option String
  pub status : ReceiptStatus
  pub source_message_id : Option MessageId
  pub source_thread_id : Option ThreadId

pub record ReplySignal : Type 0 where
  pub thread_id : ThreadId
  pub message_id : MessageId
  pub from_address : String
  pub text : String

pub record ReceiptSignal : Type 0 where
  pub receipt_id : ReceiptId
  pub receipt : Receipt

pub data InboundSignal : Type 0 where
  reply : ReplySignal → InboundSignal
  receipt : ReceiptSignal → InboundSignal

pub ReceiptLineItem-discrete : Discrete ReceiptLineItem
ReceiptLineItem-discrete = hlevel (String-discrete, Money-discrete, ℤ-discrete)

pub Receipt-discrete : Discrete Receipt
Receipt-discrete =
    hlevel (String-discrete, Money-discrete, ℤ-discrete, ℕ_discrete, ReceiptLineItem-discrete)
