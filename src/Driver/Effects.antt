-- ===== src/Driver/Effects.antt =====
-- workflow/txn_workflow.py: `_dispatch`, `_execute` and what they call.
use ynab_agent.Common.{
  String, String-discrete, ℕ, zero, suc, Option, none, some, List, [], ◌∷◌, ◌++◌,
}
use ynab_agent.Domain.Ids.{ThreadId}
use ynab_agent.Domain.Proposal.{Proposal, Decision}
use ynab_agent.Domain.Transaction.{
  TxnCore, Transaction, discovered, hold_amazon, enriching, auto_applied, awaiting_human, applied,
  opened, lapsed, revising, archived,
}
use ynab_agent.Domain.Event.{LifecycleEvent, write_verified}
use ynab_agent.Domain.Effect.{
  MessagePurpose, Effect, open_thread, send_message, commit_to_ynab, set_timer, cancel_timer,
  feed_rule_learning, record_auto_action, replay_buffered, close_thread,
}
use ynab_agent.Lifecycle.{advance}
use ynab_agent.Lifecycle.Values.{Transition}
use ynab_agent.Policy.Converge.{classify_verify, target_of}
use ynab_agent.Driver.World
use ynab_agent.Driver.World.{World, Driver, Entry, Outcome, exhausted, Run, write}
use ynab_agent.Driver.Action.{pure, gets, lift, modify, ◌>>=◌, ◌>>◌, suppressed, call}

abbrev with_thread : TxnCore → ThreadId → TxnCore
with_thread core tid = record core { thread_id = some tid }

-- The transaction with the thread in its core, in every state but DISCOVERED.
abbrev pub adopt : Transaction → ThreadId → Transaction
adopt (discovered t) tid = discovered t
adopt (hold_amazon t) tid = hold_amazon (record t { core = with_thread t.core tid })
adopt (enriching t) tid = enriching (record t { core = with_thread t.core tid })
adopt (auto_applied t) tid = auto_applied (record t { core = with_thread t.core tid })
adopt (awaiting_human t) tid = awaiting_human (record t { core = with_thread t.core tid })
adopt (applied t) tid = applied (record t { core = with_thread t.core tid })
adopt (opened t) tid = opened (record t { core = with_thread t.core tid })
adopt (lapsed t) tid = lapsed (record t { core = with_thread t.core tid })
adopt (revising t) tid = revising (record t { core = with_thread t.core tid })
adopt (archived t) tid = archived (record t { core = with_thread t.core tid })

-- `_set_thread_id`
unfoldable pub set_thread_id : ThreadId → Driver → Driver
set_thread_id tid d = record d { thread_id = some tid; txn = adopt d.txn tid }

-- `st.thread_id if isinstance(st, Discovered) else st.core.thread_id`
abbrev pub thread_of : Transaction → Option ThreadId
thread_of (discovered t) = t.thread_id
thread_of (hold_amazon t) = t.core.thread_id
thread_of (enriching t) = t.core.thread_id
thread_of (auto_applied t) = t.core.thread_id
thread_of (awaiting_human t) = t.core.thread_id
thread_of (applied t) = t.core.thread_id
thread_of (opened t) = t.core.thread_id
thread_of (lapsed t) = t.core.thread_id
thread_of (revising t) = t.core.thread_id
thread_of (archived t) = t.core.thread_id

-- The mirror after `_sync_thread_id`: a known thread of the transaction, else the old one.
abbrev pub mirrored : Option ThreadId → Option ThreadId → Option ThreadId
mirrored (some tid) old = some tid
mirrored none old = old

-- `_sync_thread_id`
unfoldable pub sync_thread_id : Driver → Driver
sync_thread_id d = record d { thread_id = mirrored (thread_of d.txn) d.thread_id }

-- `_proposal`
abbrev pub proposal_of : Transaction → Option Proposal
proposal_of (enriching t) = t.proposal
proposal_of (awaiting_human t) = t.proposal
proposal_of (lapsed t) = t.proposal
proposal_of _ = none

-- `self._txn = transition.next`, with the mirror.
unfoldable pub enter : Transaction → Driver → Driver
unfolding sync_thread_id
enter next d = sync_thread_id (record d { txn = next })

-- `if followup is not None: await self._dispatch(followup)`
unfoldable pub follow : (LifecycleEvent → Run (Unit {0})) → Option LifecycleEvent → Run (Unit {0})
follow again none = pure tt
follow again (some event) = again event

module _ (world : World) where
  -- An activity's result.
  abbrev pub asked {ℓ} : {A : Type ℓ} → (World.Log → A) → Run A
  asked answer = gets (λ d. answer d.log)

  -- `_open_thread`
  unfoldable pub open_thread_with :
      MessagePurpose → Option String → Option Decision → Run (Unit {0})
  open_thread_with purpose detail decision = do
    d ← gets (λ d. d)
    call world (Entry.open_thread d.ynab_id (proposal_of d.txn) purpose detail decision)
    tid ← asked world.opened
    modify (set_thread_id tid)

  -- The `SendThreadMessage` branch of `_execute`.
  unfoldable pub send :
      MessagePurpose → Option String → Option Decision → Option ThreadId → Run (Unit {0})
  send purpose detail decision none = open_thread_with purpose detail decision
  send purpose detail decision (some tid) = do
    modify (λ d. record d { action_seq = suc d.action_seq })
    d ← gets (λ d. d)
    call world (Entry.send d.ynab_id tid purpose d.action_seq (proposal_of d.txn) detail decision)

  -- The `CloseThread` branch of `_execute`.
  unfoldable pub close : Option ThreadId → Run (Unit {0})
  close none = pure tt
  close (some tid) = call world (Entry.close_thread tid)

  -- The `CommitToYnab` branch of `_execute`.
  unfoldable pub commit : Decision → Run (Option LifecycleEvent)
  commit decision = do
    d ← gets (λ d. d)
    call world (Entry.commit d.ynab_id decision)
    call world (Entry.read_back d.ynab_id)
    read ← asked world.read
    pure (
        some
          (write_verified (classify_verify String-discrete world.digest read (target_of decision))))

  -- The branches of `_execute` that have no follow-up.
  unfoldable pub perform : Effect → Run (Unit {0})
  perform (commit_to_ynab _) = pure tt
  perform open_thread = open_thread_with MessagePurpose.proposal none none
  perform (send_message purpose detail decision) = do
    thread_id ← gets (λ d. d.thread_id)
    send purpose detail decision thread_id
  perform (feed_rule_learning effect) = call world (Entry.feed_rule_learning effect)
  perform (record_auto_action ynab_id) =
      λ d. suppressed (call world (Entry.record_auto_action ynab_id) d)
  perform close_thread = do thread_id ← gets (λ d. d.thread_id); close thread_id
  perform (set_timer timer deadline) =
      modify (λ d. record d { deadlines = World.set_timer d.deadlines timer (some deadline) })
  perform (cancel_timer timer) =
      modify (λ d. record d { deadlines = World.set_timer d.deadlines timer none })
  perform (replay_buffered signals) = modify (λ d. record d { inbound = signals ++ d.inbound })

  -- `_execute`
  unfoldable pub execute : Effect → Run (Option LifecycleEvent)
  execute (commit_to_ynab decision) = commit decision
  execute effect = do perform effect; pure none

  -- The loop of `_dispatch` over the effects.
  unfoldable pub execute_all : (LifecycleEvent → Run (Unit {0})) → List Effect → Run (Unit {0})
  execute_all again [] = pure tt
  execute_all again (effect ∷ effects) = do
    followup ← execute effect
    follow again followup
    execute_all again effects

  -- The transition of `_dispatch`.
  unfoldable pub transition : LifecycleEvent → Run Transition
  transition event d = lift (advance (world.now d.log) world.policy d.txn event) d

  -- `_dispatch`. The fuel bounds the depth of its recursion.
  unfoldable pub dispatch_within : ℕ → LifecycleEvent → Run (Unit {0})
  dispatch_within zero event = λ d. (exhausted, d)
  dispatch_within (suc depth) event = do
    t ← transition event
    modify (enter t.next)
    execute_all (dispatch_within depth) t.effects

  -- A follow-up has no follow-up of its own.
  unfoldable pub dispatch : LifecycleEvent → Run (Unit {0})
  dispatch event = dispatch_within 2 event
