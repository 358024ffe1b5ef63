-- ===== src/Dispatch/Routing.antt =====
-- Which e-mails are acted on, and how.
use text.Mathlib.Text.{◌==◌ as str_eq}
use ynab_agent.Common.{
  ◌≡◌, String, true, false, Option, none, some, List, [], ◌∷◌, raise, any, ◌||◌, ◌<>◌, get_last?,
  arith, Bool-cases, ◌⊎◌, inl, inr, activity_error,
}
use ynab_agent.Domain.Ids.{YnabTransactionId}
use ynab_agent.Dispatch.{
  Call, Outside, signal_transaction, signal_offer, signal_balance, classify_inbound, route_receipt,
  handle_command, page, page_failure, run,
}
use ynab_agent.Dispatch.Classify.{
  InboundMessage, InboundKind, receipt, command, noise, classify, sender_address, is_system_sender,
}

-- The calls that act on a message: a signal, the classifier, and what it leads to.
abbrev pub acts : List Call → List Call
acts [] = []
acts (signal_transaction id m ∷ calls) = signal_transaction id m ∷ acts calls
acts (signal_offer id m ∷ calls) = signal_offer id m ∷ acts calls
acts (signal_balance id m ∷ calls) = signal_balance id m ∷ acts calls
acts (classify_inbound m ∷ calls) = classify_inbound m ∷ acts calls
acts (route_receipt m ∷ calls) = route_receipt m ∷ acts calls
acts (handle_command m ∷ calls) = handle_command m ∷ acts calls
acts (_ ∷ calls) = acts calls

-- The calls that hand a message on: a signal to its thread's workflow, the receipt's route and the
-- command's. The classifier alone is none.
abbrev pub handed_on : List Call → List Call
handed_on [] = []
handed_on (signal_transaction id m ∷ calls) = signal_transaction id m ∷ handed_on calls
handed_on (signal_offer id m ∷ calls) = signal_offer id m ∷ handed_on calls
handed_on (signal_balance id m ∷ calls) = signal_balance id m ∷ handed_on calls
handed_on (route_receipt m ∷ calls) = route_receipt m ∷ handed_on calls
handed_on (handle_command m ∷ calls) = handle_command m ∷ handed_on calls
handed_on (_ ∷ calls) = handed_on calls

-- The pages of a run.
abbrev pub pages : List Call → List Call
pages [] = []
pages (page key title body ∷ calls) = page key title body ∷ pages calls
pages (page_failure key context ∷ calls) = page_failure key context ∷ pages calls
pages (_ ∷ calls) = pages calls

module _ (outside : Outside) (message : InboundMessage) (allowlist : List String) where
  -- A signed message of a listed person.
  pub record IsTrusted : Type 0 where
    pub signed : message.signature_verified ≡ true
    pub personal : message.is_auto_reply ≡ false
    pub human :
        is_system_sender (sender_address outside.parseaddr outside.lower message.from_address)
        ≡ false
    pub listed :
        any (str_eq (sender_address outside.parseaddr outside.lower message.from_address)) allowlist
        ≡ true

  -- What the threads of the message say is done with it.
  abbrev pub handling :
      Option YnabTransactionId → Option String → Option String → InboundKind → List Call
  handling (some id) _ _ _ = signal_transaction id message ∷ []
  handling none (some id) _ _ = signal_offer id message ∷ []
  handling none none (some id) _ = signal_balance id message ∷ []
  handling none none none receipt = classify_inbound message ∷ route_receipt message ∷ []
  handling none none none command = classify_inbound message ∷ handle_command message ∷ []
  handling none none none noise = classify_inbound message ∷ []

  -- A message is acted on only where it is signed, no automatic reply, not of a system's sender, and of a
  -- sender on the allow-list, whatever the activities do.
  pub run-IsTrusted :
      {c : Call} {cs : List Call} → acts (run outside message allowlist).1 ≡ c ∷ cs → IsTrusted
  unfolding run classify
  run-IsTrusted h = ground arith

  -- A trusted message, where no activity fails, is acted on once, and nobody is paged: it goes to its
  -- thread's transaction, else to its offer, else to its balance, and else to the classifier and where
  -- that says.
  pub run-handling :
      IsTrusted
      → ((c : Call) → outside.fails c ≡ false)
      → (acts (run outside message allowlist).1
          ≡ handling
              (outside.thread_txn message.thread_id)
              (outside.thread_offer message.thread_id)
              (outside.thread_balance message.thread_id)
              (outside.kind_of message))
        × (pages (run outside message allowlist).1 ≡ [])
  unfolding run classify
  run-handling t works = grind arith

  -- From an automatic reply or a system's sender.
  abbrev pub IsAutomatic : Type 0
  IsAutomatic =
      (message.is_auto_reply
        || is_system_sender (sender_address outside.parseaddr outside.lower message.from_address))
      ≡ true

  -- Of no thread that the agent knows, and noise to the classifier.
  pub record IsNoise : Type 0 where
    pub no_txn : outside.thread_txn message.thread_id ≡ none
    pub no_offer : outside.thread_offer message.thread_id ≡ none
    pub no_balance : outside.thread_balance message.thread_id ≡ none
    pub classified : outside.kind_of message ≡ noise

  unhandled-IsNoise :
      handed_on (run outside message allowlist).1 ≡ []
      → pages (run outside message allowlist).1 ≡ []
      → (message.is_auto_reply
          || is_system_sender (sender_address outside.parseaddr outside.lower message.from_address))
        ≡ false
      → IsNoise
  unfolding run classify
  unhandled-IsNoise h p a = ground arith

  -- A message is dropped in silence only as such: a run that calls no activity to hand its message on,
  -- and none to page, is of an automatic reply, of a system's sender, or of a message in no known thread
  -- that the classifier calls noise, whatever the activities do. A run that ends in an activity's error
  -- has, as its last call, asked for a page under the message's id.
  pub run-never_silent :
      (handed_on (run outside message allowlist).1 ≡ []
        → pages (run outside message allowlist).1 ≡ []
        → IsAutomatic ⊎ IsNoise)
      × ((run outside message allowlist).0 ≡ raise activity_error
          → get_last? (run outside message allowlist).1
            ≡ some (
                page_failure message.message_id
                  ("inbound from " <> (message.from_address <> (": " <> message.subject)))))
  unfolding run classify
  run-never_silent = (
    λ h p.
        elim (Bool-cases (
          message.is_auto_reply
          || is_system_sender
              (sender_address outside.parseaddr outside.lower message.from_address))) [
                | inl a ↦ inl a
                | inr a ↦ inr (unhandled-IsNoise h p a)
              ],
    λ e. ground arith,
  )
