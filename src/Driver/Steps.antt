-- ===== src/Driver/Steps.antt =====
-- workflow/txn_workflow.py: the per-state steps, `_step`, and `run` with continue-as-new.
use ynab_agent.Common.{Bool, true, false, not, ◌&&◌, Option, none, some, test, if◌then◌else◌}
use ynab_agent.Domain.Ids.{Datetime}
use ynab_agent.Domain.Enums.{human}
use ynab_agent.Domain.Allocation.{ResolvedAllocation-discrete}
use ynab_agent.Domain.Proposal.{Decision}
use ynab_agent.Domain.Transaction.{
  YnabSnapshot, HoldAmazon, Enriching, AwaitingHuman, Opened, Revising, Transaction, discovered,
  hold_amazon, enriching, auto_applied, awaiting_human, applied, opened, lapsed, revising, archived,
}
use ynab_agent.Domain.Event.{
  LifecycleEvent, snapshot_materialized, snapshot_unavailable, inbound_received, hold_resolved,
  hold_deadline_reached, enriched, answer_received, clarify_requested, patience_expired, converged,
  archive_window_reached, override_detected,
}
use ynab_agent.Domain.Effect.{TimerKind, archive, patience}
use ynab_agent.Policy.Converge.{TargetState}
use ynab_agent.Ingest.{is_amazon, has_memo}
use ynab_agent.Driver.World.{
  World, Driver, Entry, ReplyOutcome, TransactionParams, Outcome, done, raised, Run, Log,
}
use ynab_agent.Driver.World as W
use ynab_agent.Driver.Action.{
  pure, gets, modify, ◌>>=◌, ◌>>◌, has_inbound, is_stirred, pop_left, call, wait_condition,
  wait_until, wait_forever,
}
use ynab_agent.Driver.Effects.{dispatch, asked, proposal_of}

-- `type(a) is type(b)`
abbrev pub same_type : Transaction → Transaction → Bool
same_type (discovered _) (discovered _) = true
same_type (hold_amazon _) (hold_amazon _) = true
same_type (enriching _) (enriching _) = true
same_type (auto_applied _) (auto_applied _) = true
same_type (awaiting_human _) (awaiting_human _) = true
same_type (applied _) (applied _) = true
same_type (opened _) (opened _) = true
same_type (lapsed _) (lapsed _) = true
same_type (revising _) (revising _) = true
same_type (archived _) (archived _) = true
same_type _ _ = false

-- `isinstance(txn, _RESTING)`
abbrev pub is_resting : Transaction → Bool
is_resting (discovered _) = true
is_resting (awaiting_human _) = true
is_resting (opened _) = true
is_resting (lapsed _) = true
is_resting (hold_amazon _) = true
is_resting _ = false

abbrev pub is_archived : Transaction → Bool
is_archived (archived _) = true
is_archived _ = false

abbrev drop_timer : TimerKind → Driver → Driver
drop_timer timer d = record d { deadlines = W.set_timer d.deadlines timer none }

-- The human's decision that a read-back shows.
abbrev pub read_decision : TargetState → Datetime → Decision
read_decision read now = record {
  allocation = read.allocation;
  memo = read.memo;
  approved = read.approved;
  decided_by = human;
  decided_at = now;
  rule_id = none;
}

-- The event of `_archive_or_override`.
unfoldable pub override_event : Option TargetState → Opened → Datetime → LifecycleEvent
override_event none st now = archive_window_reached
override_event (some read) st now =
    if not (test (ResolvedAllocation-discrete read.allocation st.decision.allocation))
    then override_detected (read_decision read now)
    else archive_window_reached

module _ (world : World) where
  -- `_hold_for_amazon`
  unfoldable pub hold_for_amazon : YnabSnapshot → Bool
  unfolding is_amazon has_memo
  hold_for_amazon snapshot =
      is_amazon world.lower world.strip snapshot.payee
      && not (has_memo world.lower world.strip snapshot)

  -- `InboundReceived(signal=self._inbound.popleft())`, dispatched.
  unfoldable pub hand_in : Run (Unit {0})
  hand_in = do sig ← pop_left; dispatch world (inbound_received sig)

  -- `self._snapshot_ready = None`, and the event for the snapshot that was there; where there was
  -- none, the next inbound signal.
  unfoldable pub take_stirred :
      (YnabSnapshot → LifecycleEvent) → Option YnabSnapshot → Run (Unit {0})
  take_stirred event (some snap) = do
    modify (λ d. record d { snapshot_ready = none })
    dispatch world (event snap)
  take_stirred event none = hand_in

  abbrev pub materialized : YnabSnapshot → LifecycleEvent
  materialized snap = snapshot_materialized snap (hold_for_amazon snap)

  -- `_on_discovered`, after the fetch.
  unfoldable pub after_fetch : Option YnabSnapshot → Run (Unit {0})
  after_fetch (some snapshot) = dispatch world (materialized snapshot)
  after_fetch none = do
    dispatch world snapshot_unavailable
    wait_condition world is_stirred
    ready ← gets (λ d. d.snapshot_ready)
    take_stirred materialized ready

  -- `_on_discovered`
  unfoldable pub on_discovered : Run (Unit {0})
  on_discovered = do
    d ← gets (λ d. d)
    call world (Entry.fetch_snapshot d.ynab_id)
    snapshot ← asked world world.fetched
    after_fetch snapshot

  -- `_on_enriching`
  unfoldable pub on_enriching : Enriching → Run (Unit {0})
  on_enriching st = do
    call world (Entry.enrich st.core.snapshot)
    outcome ← asked world world.enriched
    dispatch world (enriched outcome)

  -- `_on_hold`, after the wait.
  unfoldable pub after_hold : Bool → Run (Unit {0})
  after_hold false = dispatch world hold_deadline_reached
  after_hold true = do ready ← gets (λ d. d.snapshot_ready); take_stirred hold_resolved ready

  -- `_on_hold`
  unfoldable pub on_hold : HoldAmazon → Run (Unit {0})
  on_hold st = do ready ← wait_until world st.amazon_deadline is_stirred; after_hold ready

  -- The event for an interpreted reply.
  abbrev pub reply_event : ReplyOutcome → LifecycleEvent
  reply_event (ReplyOutcome.answer decision) = answer_received decision
  reply_event (ReplyOutcome.clarify question) = clarify_requested question

  -- `_interpret_inbound`
  unfoldable pub interpret_inbound : YnabSnapshot → Run (Unit {0})
  interpret_inbound snapshot = do
    sig ← pop_left
    d ← gets (λ d. d)
    call world (Entry.interpret sig snapshot (proposal_of d.txn))
    interpretation ← asked world world.interpreted
    dispatch world (reply_event interpretation)

  -- `_on_awaiting`, after the expiry was dispatched.
  unfoldable pub after_expiry : AwaitingHuman → Bool → Run (Unit {0})
  after_expiry st false = pure tt
  after_expiry st true = do
    modify (drop_timer patience)
    wait_condition world has_inbound
    interpret_inbound st.core.snapshot

  -- `_on_awaiting`, after the wait.
  unfoldable pub after_patience : AwaitingHuman → Bool → Run (Unit {0})
  after_patience st true = interpret_inbound st.core.snapshot
  after_patience st false = do
    before ← gets (λ d. d.txn)
    dispatch world patience_expired
    same ← gets (λ d. same_type d.txn before)
    after_expiry st same

  -- `_on_awaiting`
  unfoldable pub on_awaiting : AwaitingHuman → Run (Unit {0})
  on_awaiting st = do
    got_inbound ← wait_until world st.patience_deadline has_inbound
    after_patience st got_inbound

  -- `_wait_until` with a deadline, `_wait_forever` with none.
  unfoldable pub wait_window : Option Datetime → Run Bool
  wait_window none = wait_forever world has_inbound
  wait_window (some deadline) = wait_until world deadline has_inbound

  -- The last branch of `_on_open` and of `_wait_then_revise_or_archive`: a blocked archive drops its
  -- timer and waits.
  unfoldable pub wait_on : Bool → Run (Unit {0})
  wait_on false = pure tt
  wait_on true = do modify (drop_timer archive); wait_condition world has_inbound; hand_in

  -- An attempt to close the transaction, and the wait where it is blocked.
  unfoldable pub try_closing : LifecycleEvent → Run (Unit {0})
  try_closing event = do
    before ← gets (λ d. d.txn)
    dispatch world event
    same ← gets (λ d. same_type d.txn before)
    wait_on same

  -- `_archive_or_override`
  unfoldable pub archive_or_override : Opened → Run LifecycleEvent
  archive_or_override st = do
    d ← gets (λ d. d)
    call world (Entry.read_back d.ynab_id)
    read ← asked world world.read
    now ← asked world world.now
    pure (override_event read st now)

  -- `_on_open`, after the wait.
  unfoldable pub after_window_open : Opened → Bool → Run (Unit {0})
  after_window_open st true = hand_in
  after_window_open st false = do event ← archive_or_override st; try_closing event

  -- `_on_open`
  unfoldable pub on_open : Opened → Run (Unit {0})
  on_open st = do
    deadline ← gets (λ d. d.deadlines archive)
    got_inbound ← wait_window deadline
    after_window_open st got_inbound

  -- `_wait_then_revise_or_archive`, after the wait.
  unfoldable pub after_window : Bool → Run (Unit {0})
  after_window true = hand_in
  after_window false = try_closing archive_window_reached

  -- `_on_lapsed`
  unfoldable pub on_lapsed : Run (Unit {0})
  on_lapsed = do
    deadline ← gets (λ d. d.deadlines archive)
    got_inbound ← wait_window deadline
    after_window got_inbound

  -- `_on_revising`
  unfoldable pub on_revising : Revising → Run (Unit {0})
  on_revising st = do
    call world (Entry.converge st.core.snapshot st.instruction st.prior)
    outcome ← asked world world.converged
    dispatch world (converged outcome)

  unfoldable pub step_in : Transaction → Run (Unit {0})
  step_in (discovered _) = on_discovered
  step_in (enriching st) = on_enriching st
  step_in (hold_amazon st) = on_hold st
  step_in (awaiting_human st) = on_awaiting st
  step_in (opened st) = on_open st
  step_in (lapsed _) = on_lapsed
  step_in (revising st) = on_revising st
  step_in (auto_applied _) = pure tt
  step_in (applied _) = pure tt
  step_in (archived _) = pure tt

  -- `_step`
  unfoldable pub step : Run (Unit {0})
  step d = step_in d.txn d
