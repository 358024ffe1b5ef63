-- ===== src/Dispatch.antt =====
-- workflow/dispatch_workflow.py: one inbound e-mail, classified and routed. What the activities
-- answer, and whether they fail, is a parameter; what the workflow calls is the trace that a run
-- returns. Beside dispatch/classify.py in Dispatch/Classify.
pub mod Classify
pub mod Routing
use ynab_agent.Common.{
  String, ◌<>◌, Bool, true, false, Option, none, some, List, [], ◌∷◌, ◌++◌, Result, ok, raise,
  Exception, activity_error, value_error, index_error, key_error, if◌then◌else◌,
}
use ynab_agent.Domain.Ids.{ThreadId, YnabTransactionId}
use Classify.{
  InboundMessage, InboundKind, receipt, command, noise, DispatchDecision, quarantine, ignore,
  route_to_transaction, route_to_offer, route_to_balance, route_to_interpret, classify,
}

-- The activities of a run. `page` is `alert_failure` with its key, title and body, and
-- `page_failure` that with what `build_failure_alert` makes of its key, its context and the error.
pub data Call : Type 0 where
  resolve_thread resolve_offer_thread resolve_balance_thread : Option ThreadId → Call
  signal_transaction : YnabTransactionId → InboundMessage → Call
  signal_offer signal_balance : String → InboundMessage → Call
  classify_inbound route_receipt handle_command : InboundMessage → Call
  page : String → String → String → Call
  page_failure : String → String → Call

pub record Outside : Type 0 where
  pub fails : Call → Bool
  pub thread_txn : Option ThreadId → Option YnabTransactionId
  pub thread_offer : Option ThreadId → Option String
  pub thread_balance : Option ThreadId → Option String
  pub kind_of : InboundMessage → InboundKind
  pub parseaddr : String → String × String
  pub lower : String → String
  -- Python's `repr` of a text.
  pub repr : String → String

pub record DispatchResult : Type 0 where
  pub action : String
  pub detail : String

-- A result, with the calls that were made.
abbrev pub Traced {ℓ} : Type ℓ → Type ℓ
Traced A = Result A × List Call

abbrev pub traced_after {κ} : {B : Type κ} → List Call → Traced B → Traced B
traced_after calls rest = (rest.0, calls ++ rest.1)

module _ {ℓ κ} {A : Type ℓ} {B : Type κ} where
  infixl 5 ◌>>=◌ ◌>>◌
  abbrev pub ◌>>=◌ : Traced A → (A → Traced B) → Traced B
  (raise error, calls) >>= rest = (raise error, calls)
  (ok a, calls) >>= rest = traced_after calls (rest a)

  abbrev pub ◌>>◌ : Traced A → Traced B → Traced B
  first >> rest = first >>= λ _. rest

-- `DispatchResult(action=...)`
abbrev pub result_of : String → String → Traced DispatchResult
result_of action detail = (ok (record { action = action; detail = detail }), [])

module _ (outside : Outside) where
  -- `workflow.execute_activity`, with what it answers.
  abbrev pub call {ℓ} : {A : Type ℓ} → Call → A → Traced A
  call c answer = (if outside.fails c then raise activity_error else ok answer, c ∷ [])

  -- An activity without an answer.
  abbrev pub execute : Call → Traced (Unit {0})
  execute c = call c tt

  -- `offer_id` of `_run`: asked only where the thread is no transaction's.
  unfoldable pub offer_of : Option ThreadId → Option YnabTransactionId → Traced (Option String)
  offer_of thread (some _) = (ok none, [])
  offer_of thread none = call (resolve_offer_thread thread) (outside.thread_offer thread)

  -- `balance_id` of `_run`.
  unfoldable pub balance_of :
      Option ThreadId → Option YnabTransactionId → Option String → Traced (Option String)
  balance_of thread none none = call (resolve_balance_thread thread) (outside.thread_balance thread)
  balance_of thread _ _ = (ok none, [])

  -- `_interpret`
  unfoldable pub interpreted : InboundMessage → InboundKind → Traced DispatchResult
  interpreted message receipt = do execute (route_receipt message); result_of "receipt" ""
  interpreted message command = do execute (handle_command message); result_of "command" ""
  interpreted message noise = result_of "ignore" "classified as noise"

  -- The alert on a message that is held.
  unfoldable pub quarantine_page : InboundMessage → String → Call
  quarantine_page message reason =
      page ("quarantine-" <> outside.lower message.from_address)
        "ynab-agent: inbound message quarantined"
        ("From "
          <> (message.from_address
              <> (": "
                  <> (outside.repr message.subject
                      <> (" was held, not acted on ("
                          <> (reason
                              <> "). If this sender is legitimate, add the address to YNAB_AGENT_OWNERS and re-run the install; the sender can then re-send."))))))

  -- The `match` of `_run`.
  unfoldable pub act : InboundMessage → DispatchDecision → Traced DispatchResult
  unfolding interpreted quarantine_page
  act message (route_to_transaction id) = do
    execute (signal_transaction id message)
    result_of "transaction" ""
  act message (route_to_offer id) = do execute (signal_offer id message); result_of "offer" ""
  act message (route_to_balance id) = do execute (signal_balance id message); result_of "balance" ""
  act message route_to_interpret = do
    kind ← call (classify_inbound message) (outside.kind_of message)
    interpreted message kind
  act message (quarantine reason) = do
    execute (quarantine_page message reason)
    result_of "quarantine" reason
  act message (ignore reason) = result_of "ignore" reason

  -- `_run`
  unfoldable pub run_once : InboundMessage → List String → Traced DispatchResult
  unfolding offer_of balance_of act
  run_once message allowlist = do
    txn_id ← call (resolve_thread message.thread_id) (outside.thread_txn message.thread_id)
    offer_id ← offer_of message.thread_id txn_id
    balance_id ← balance_of message.thread_id txn_id offer_id
    act message
        (classify outside.parseaddr outside.lower message allowlist txn_id offer_id balance_id)

  -- The `except ActivityError` of `run`.
  unfoldable pub paged : InboundMessage → Traced DispatchResult → Traced DispatchResult
  paged message (raise activity_error, calls) = traced_after calls (do
    execute (
        page_failure message.message_id
          ("inbound from " <> (message.from_address <> (": " <> message.subject))))
    (raise activity_error, []))
  paged message (raise value_error, calls) = (raise value_error, calls)
  paged message (raise index_error, calls) = (raise index_error, calls)
  paged message (raise key_error, calls) = (raise key_error, calls)
  paged message (ok result, calls) = (ok result, calls)

  -- `DispatchWorkflow.run`
  unfoldable pub run : InboundMessage → List String → Traced DispatchResult
  unfolding run_once paged
  run message allowlist = paged message (run_once message allowlist)
