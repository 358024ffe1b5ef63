-- ===== src/Lifecycle/Handlers.antt =====
-- The handlers of domain/state_machine.py, one for each state. A handler may raise, where it
-- builds a state whose validator refuses the data.
use ynab_agent.Common.{
  String, ◌<>◌, not, Option, none, some, List, [], ◌∷◌, ◌++◌, Result, ok, ◌>>=◌, if◌then◌else◌,
}
use ynab_agent.Common.Int.{◌+ℤ◌}
use ynab_agent.Domain.Ids.{Datetime, ThreadId}
use ynab_agent.Domain.Enums.{AwaitingFlag, RevisingOrigin}
use ynab_agent.Domain.Proposal.{Decision}
use ynab_agent.Domain.Signal.{InboundSignal, reply}
use ynab_agent.Domain.Transaction.{
  YnabSnapshot, TxnCore, Discovered, HoldAmazon, Enriching, AutoApplied, AwaitingHuman, Applied,
  Opened, Lapsed, Revising, Archived, Transaction, discovered, hold_amazon, enriching, auto_applied,
  awaiting_human, applied, opened, lapsed, revising, archived, is_reconciled, is_categorized,
  enter_auto_applied, enter_applied, enter_open, enter_archived,
}
use ynab_agent.Domain.Event.{
  LifecycleEvent, snapshot_materialized, snapshot_unavailable, inbound_received, hold_resolved,
  hold_deadline_reached, enriched, answer_received, clarify_requested, patience_expired,
  write_verified, converged, archive_window_reached, override_detected, auto_apply, ask_human,
  reapplied, no_change, needs_human,
}
use ynab_agent.Domain.Event
use ynab_agent.Domain.Effect.{
  Effect, open_thread, send_message, commit_to_ynab, set_timer, cancel_timer, feed_rule_learning,
  record_auto_action, replay_buffered, close_thread,
}
use ynab_agent.Domain.Effect
use ynab_agent.Lifecycle.Values.{LifecyclePolicy, Transition, advanced, advance_to, ignore, reject}
use ynab_agent.Lifecycle.Verify.{
  await_human, enter_flagged_awaiting, resolve_write_verify, reapply, resolve_no_change,
}

-- `if txn.pending` a replay of it, else nothing.
replay_pending : List InboundSignal → List Effect
replay_pending [] = []
replay_pending (s ∷ ss) = replay_buffered (s ∷ ss) ∷ []

-- The thread that a first reply brings.
adopt_thread : Option ThreadId → InboundSignal → Option ThreadId
adopt_thread none (reply r) = some r.thread_id
adopt_thread thread_id _ = thread_id

-- `TxnCore(snapshot=snap, thread_id=txn.thread_id)`
first_core : YnabSnapshot → Option ThreadId → TxnCore
first_core snap thread_id = record {
  snapshot = snap;
  thread_id = thread_id;
  receipt_ids = [];
  audit_log_ref = none;
}

-- `Enriching(core=core)`
abbrev pub enrich : TxnCore → Transaction
enrich core = enriching (record { core = core; proposal = none })

-- A transition that stays in the state and replays one signal.
abbrev refeed : Transaction → InboundSignal → Transition
refeed txn sig = advance_to txn (replay_buffered (sig ∷ []) ∷ [])

-- First contact opens the thread; a later proposal is sent as a reply.
proposal_effect : Option ThreadId → Effect
proposal_effect none = open_thread
proposal_effect (some _) = send_message Effect.MessagePurpose.proposal none none

-- What the email of a divergence says.
diverged_detail : String → String → String
diverged_detail ynab asked =
    "YNAB now shows "
    <> (ynab
        <> (", but your reply asked for "
            <> (asked <> " — which should win? Reply with your choice and I'll set it.")))

abbrev pub archive_timer : Effect.TimerKind
archive_timer = Effect.TimerKind.archive

abbrev pub patience_timer : Effect.TimerKind
patience_timer = Effect.TimerKind.patience

abbrev pub hold_timer : Effect.TimerKind
hold_timer = Effect.TimerKind.amazon_hold

-- `_from_hold_amazon`
unfoldable pub from_hold_amazon : HoldAmazon → LifecycleEvent → Transition
from_hold_amazon txn (hold_resolved snap) =
    advance_to (enrich (record txn.core { snapshot = snap })) (cancel_timer hold_timer ∷ [])
from_hold_amazon txn hold_deadline_reached = advance_to (enrich txn.core) []
from_hold_amazon txn (inbound_received sig) =
    advance_to (enrich txn.core) (cancel_timer hold_timer ∷ replay_buffered (sig ∷ []) ∷ [])
from_hold_amazon txn event = reject (hold_amazon txn) event

-- The demotion and the notice of an override.
abbrev override_effects : Opened → Decision → List Effect
override_effects txn human_decision =
    feed_rule_learning (record {
      event = Effect.RuleLearningKind.correct;
      payee = txn.core.snapshot.payee;
      decision = some human_decision;
      prior = some txn.decision;
    })
    ∷ send_message Effect.MessagePurpose.override_notice none (some human_decision)
    ∷ []

-- `_from_open`
unfoldable pub from_open : Opened → LifecycleEvent → Result Transition
from_open txn (inbound_received sig) = ok (
    advance_to
      (revising (record {
        core = txn.core;
        instruction = sig;
        origin = RevisingOrigin.applied;
        prior = some txn.decision;
      }))
      (cancel_timer archive_timer ∷ []))
from_open txn archive_window_reached =
    if not (is_reconciled txn.core.snapshot)
    then ok (ignore (opened txn) "not reconciled yet; staying OPEN")
    else do
      nxt ← enter_archived txn.core (some txn.decision)
      ok (advance_to nxt (close_thread ∷ []))
from_open txn (override_detected human_decision) =
    if not (is_reconciled txn.core.snapshot)
    then (do
      nxt ← enter_open txn.core human_decision
      ok (advance_to nxt (override_effects txn human_decision)))
    else do
      nxt ← enter_archived txn.core (some human_decision)
      ok (advance_to nxt (override_effects txn human_decision ++ close_thread ∷ []))
from_open txn event = ok (reject (opened txn) event)

-- `_from_lapsed`
unfoldable pub from_lapsed : Lapsed → LifecycleEvent → Result Transition
from_lapsed txn (inbound_received sig) = ok (
    advance_to
      (revising (record {
        core = txn.core;
        instruction = sig;
        origin = RevisingOrigin.lapsed;
        prior = none;
      }))
      (cancel_timer archive_timer ∷ []))
from_lapsed txn archive_window_reached =
    if not (is_reconciled txn.core.snapshot)
    then ok (ignore (lapsed txn) "not reconciled yet; staying LAPSED")
    else if not (is_categorized txn.core.snapshot)
    then ok (record {
      kind = advanced;
      next = lapsed txn;
      effects = send_message Effect.MessagePurpose.archive_notice none none ∷ [];
      reason = some "uncategorized; warned before archiving (SPEC §3)";
    })
    else do nxt ← enter_archived txn.core none; ok (advance_to nxt (close_thread ∷ []))
from_lapsed txn event = ok (reject (lapsed txn) event)

-- `_from_archived`
unfoldable pub from_archived : Archived → LifecycleEvent → Transition
from_archived txn event = reject (archived txn) event

module _ (now : Datetime) (policy : LifecyclePolicy) where
  -- `_from_discovered`
  unfoldable pub from_discovered : Discovered → LifecycleEvent → Transition
  unfolding replay_pending adopt_thread first_core
  from_discovered txn (snapshot_materialized snap hold) =
      let core = first_core snap txn.thread_id in
      let deadline = now +ℤ policy.amazon_hold in
      if hold
      then advance_to (hold_amazon (record { core = core; amazon_deadline = deadline }))
          (set_timer hold_timer deadline ∷ replay_pending txn.pending)
      else advance_to (enrich core) (replay_pending txn.pending)
  from_discovered txn snapshot_unavailable =
      ignore (discovered txn) "snapshot not yet in YNAB; staying DISCOVERED"
  from_discovered txn (inbound_received sig) =
      advance_to
        (discovered (record {
          ynab_id = txn.ynab_id;
          thread_id = adopt_thread txn.thread_id sig;
          pending = txn.pending ++ sig ∷ [];
        }))
        []
  from_discovered txn event = reject (discovered txn) event

  -- `_from_enriching`
  unfoldable pub from_enriching : Enriching → LifecycleEvent → Result Transition
  unfolding proposal_effect
  from_enriching txn (enriched (auto_apply decision)) = do
    nxt ← enter_auto_applied txn.core decision
    ok (
        advance_to nxt
          (commit_to_ynab decision ∷ record_auto_action txn.core.snapshot.ynab_id ∷ []))
  from_enriching txn (enriched (ask_human proposal)) =
      let deadline = now +ℤ policy.patience_window in
      ok (
        advance_to
          (awaiting_human (record {
            core = txn.core;
            patience_deadline = deadline;
            proposal = some proposal;
            flag = AwaitingFlag.none;
          }))
          (proposal_effect txn.core.thread_id ∷ set_timer patience_timer deadline ∷ []))
  from_enriching txn (inbound_received sig) = ok (refeed (enriching txn) sig)
  from_enriching txn event = ok (reject (enriching txn) event)

  -- `_from_auto_applied`
  unfoldable pub from_auto_applied : AutoApplied → LifecycleEvent → Result Transition
  unfolding resolve_write_verify
  from_auto_applied txn (write_verified outcome) =
      resolve_write_verify now policy txn.core txn.decision outcome Effect.MessagePurpose.fyi none
  from_auto_applied txn event = ok (reject (auto_applied txn) event)

  -- `_from_applied`
  unfoldable pub from_applied : Applied → LifecycleEvent → Result Transition
  unfolding resolve_write_verify
  from_applied txn (write_verified outcome) =
      resolve_write_verify now policy txn.core txn.decision outcome Effect.MessagePurpose.confirm
        (some Effect.RuleLearningKind.confirm)
  from_applied txn event = ok (reject (applied txn) event)

  -- The `PatienceExpired` branch: a flagged entry does not lapse.
  unfoldable pub expire : AwaitingHuman → AwaitingFlag → Transition
  expire txn AwaitingFlag.none =
      advance_to (lapsed (record { core = txn.core; proposal = txn.proposal })) (
        send_message Effect.MessagePurpose.handoff none none
        ∷ set_timer archive_timer (now +ℤ policy.archive_window)
        ∷ [])
  expire txn _ = ignore (awaiting_human txn) "flagged entry does not lapse (SPEC §3)"

  -- `_from_awaiting_human`
  unfoldable pub from_awaiting_human : AwaitingHuman → LifecycleEvent → Result Transition
  unfolding expire
  from_awaiting_human txn (answer_received decision) = do
    nxt ← enter_applied txn.core decision
    ok (advance_to nxt (commit_to_ynab decision ∷ cancel_timer patience_timer ∷ []))
  from_awaiting_human txn (clarify_requested question) =
      let deadline = now +ℤ policy.patience_window in
      ok (
        advance_to (awaiting_human (record txn { patience_deadline = deadline })) (
          send_message Effect.MessagePurpose.clarify (some question) none
          ∷ set_timer patience_timer deadline
          ∷ []))
  from_awaiting_human txn patience_expired = ok (expire txn txn.flag)
  from_awaiting_human txn (inbound_received sig) = ok (refeed (awaiting_human txn) sig)
  from_awaiting_human txn event = ok (reject (awaiting_human txn) event)

  -- `_from_revising`
  unfoldable pub from_revising : Revising → LifecycleEvent → Result Transition
  unfolding enter_flagged_awaiting reapply resolve_no_change diverged_detail
  from_revising txn (converged (reapplied decision)) = reapply now policy txn decision
  from_revising txn (converged no_change) =
      resolve_no_change now policy txn.core txn.origin txn.prior
  from_revising txn (converged Event.ConvergeOutcome.could_not_confirm) = ok (
      enter_flagged_awaiting now policy txn.core AwaitingFlag.possibly_inconsistent
        Effect.MessagePurpose.possibly_inconsistent none none)
  from_revising txn (converged (Event.ConvergeOutcome.diverged ynab asked)) = ok (
      enter_flagged_awaiting now policy txn.core AwaitingFlag.diverged
        Effect.MessagePurpose.diverged_readback (some (diverged_detail ynab asked)) none)
  from_revising txn (converged (needs_human reason)) =
      let deadline = now +ℤ policy.patience_window in
      ok (
        advance_to (await_human txn.core deadline AwaitingFlag.none) (
          send_message Effect.MessagePurpose.clarify (some reason) none
          ∷ set_timer patience_timer deadline
          ∷ []))
  from_revising txn (inbound_received sig) =
      ok (refeed (revising (record txn { instruction = sig })) sig)
  from_revising txn event = ok (reject (revising txn) event)
