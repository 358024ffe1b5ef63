-- ===== src/Dispatch/Classify.antt =====
-- dispatch/classify.py: what is done with an inbound e-mail. `email.utils.parseaddr` and `str.lower`,
-- which no file of the repository holds, are parameters.
use text.Mathlib.Text.{◌==◌ as str_eq, starts_with}
use ynab_agent.Common.{String, Bool, not, ◌||◌, Option, none, some, List, any, if◌then◌else◌}
use ynab_agent.Domain.Ids.{MessageId, ThreadId, YnabTransactionId}

pub record InboundMessage : Type 0 where
  pub message_id : MessageId
  pub from_address : String
  pub subject : String
  pub body : String
  pub thread_id : Option ThreadId
  pub signature_verified : Bool
  pub is_auto_reply : Bool

pub data InboundKind : Type 0 where
  receipt command noise : InboundKind

pub data DispatchDecision : Type 0 where
  quarantine ignore : String → DispatchDecision
  route_to_transaction : YnabTransactionId → DispatchDecision
  route_to_offer route_to_balance : String → DispatchDecision
  route_to_interpret : DispatchDecision

-- `sender.startswith(_SYSTEM_SENDERS)`
unfoldable pub is_system_sender : String → Bool
is_system_sender sender = starts_with sender "mailer-daemon@" || starts_with sender "postmaster@"

-- The last lines of `classify`: a message is on one thread at most.
unfoldable pub route : Option YnabTransactionId → Option String → Option String → DispatchDecision
route (some txn_id) offer_id balance_id = route_to_transaction txn_id
route none (some offer_id) balance_id = route_to_offer offer_id
route none none (some balance_id) = route_to_balance balance_id
route none none none = route_to_interpret

module _ (parseaddr : String → String × String) (lower : String → String) where
  -- `parsed or raw`
  unfoldable pub or_raw : String → String → String
  or_raw parsed raw = if str_eq parsed "" then raw else parsed

  -- `_sender_address`
  unfoldable pub sender_address : String → String
  unfolding or_raw
  sender_address raw = lower (or_raw (parseaddr raw).1 raw)

  -- `classify`
  unfoldable pub classify :
      InboundMessage
      → List String
      → Option YnabTransactionId
      → Option String
      → Option String
      → DispatchDecision
  unfolding is_system_sender route any sender_address
  classify message allowlist txn_id offer_id balance_id =
      let sender = sender_address message.from_address in
      if not message.signature_verified
      then quarantine "unsigned webhook"
      else if message.is_auto_reply || is_system_sender sender
      then ignore "autoresponder or bounce"
      else if not (any (str_eq sender) allowlist)
      then quarantine "sender not allow-listed"
      else route txn_id offer_id balance_id
