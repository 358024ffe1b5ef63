-- ===== src/Lifecycle/Verify.antt =====
-- The handlers that the states of domain/state_machine.py share: `_resolve_write_verify`,
-- `_enter_flagged_awaiting`, `_reapply` and `_resolve_no_change`.
use ynab_agent.Common.{
  String, Bool, false, not, Option, none, some, List, [], ◌∷◌, Result, ok, ◌>>=◌, test,
  if◌then◌else◌,
}
use ynab_agent.Common.Int.{◌+ℤ◌}
use ynab_agent.Domain.Ids.{Datetime}
use ynab_agent.Domain.Enums.{AwaitingFlag, RevisingOrigin}
use ynab_agent.Domain.Allocation.{ResolvedAllocation-discrete}
use ynab_agent.Domain.Proposal.{Decision}
use ynab_agent.Domain.Transaction.{TxnCore, Revising, Transaction, awaiting_human, enter_open}
use ynab_agent.Domain.Event.{VerifyOutcome, match, could_not_confirm, diverged}
use ynab_agent.Domain.Effect.{
  MessagePurpose, RuleLearningKind, Effect, send_message, set_timer, feed_rule_learning,
}
use ynab_agent.Domain.Effect
use ynab_agent.Lifecycle.Values.{LifecyclePolicy, Transition, advance_to}

-- A plain `AwaitingHuman(core=core, patience_deadline=deadline)` with the flag given.
abbrev pub await_human : TxnCore → Datetime → AwaitingFlag → Transaction
await_human core deadline flag =
    awaiting_human
      (record { core = core; patience_deadline = deadline; proposal = none; flag = flag })

module _ (now : Datetime) (policy : LifecyclePolicy) where
  -- `_enter_flagged_awaiting`
  unfoldable pub enter_flagged_awaiting :
      TxnCore → AwaitingFlag → MessagePurpose → Option String → Option Decision → Transition
  enter_flagged_awaiting core flag message detail decision =
      let deadline = now +ℤ policy.patience_window in
      advance_to (await_human core deadline flag)
        (send_message message detail decision ∷ set_timer Effect.TimerKind.patience deadline ∷ [])

  -- The effects of a verified write, the learning event first.
  unfoldable pub verified_effects :
      TxnCore → Decision → MessagePurpose → Option RuleLearningKind → List Effect
  verified_effects core decision applied_message learning =
      let effects =
        send_message applied_message none (some decision)
        ∷ set_timer Effect.TimerKind.archive (now +ℤ policy.archive_window)
        ∷ [] in
      elim learning [
        | none ↦ effects
        | some event ↦
            feed_rule_learning (record {
              event = event;
              payee = core.snapshot.payee;
              decision = some decision;
              prior = none;
            })
            ∷ effects
      ]

  -- `_resolve_write_verify`
  unfoldable pub resolve_write_verify :
      TxnCore
      → Decision
      → VerifyOutcome
      → MessagePurpose
      → Option RuleLearningKind
      → Result Transition
  unfolding verified_effects enter_flagged_awaiting
  resolve_write_verify core decision match applied_message learning = do
    nxt ← enter_open core decision
    ok (advance_to nxt (verified_effects core decision applied_message learning))
  resolve_write_verify core decision could_not_confirm applied_message learning = ok (
      enter_flagged_awaiting core AwaitingFlag.possibly_inconsistent
        Effect.MessagePurpose.possibly_inconsistent none (some decision))
  resolve_write_verify core decision diverged applied_message learning = ok (
      enter_flagged_awaiting core AwaitingFlag.diverged Effect.MessagePurpose.diverged_readback none
        (some decision))

  -- `txn.prior is not None and txn.prior.allocation != decision.allocation`
  unfoldable pub is_correction : Option Decision → Decision → Bool
  is_correction none decision = false
  is_correction (some prior) decision =
      not (test (ResolvedAllocation-discrete prior.allocation decision.allocation))

  -- The learning event of `_reapply`.
  unfoldable pub revision_learning : Revising → Decision → Effect
  revision_learning txn decision =
      let payee = txn.core.snapshot.payee in
      if is_correction txn.prior decision
      then feed_rule_learning (record {
        event = Effect.RuleLearningKind.correct;
        payee = payee;
        decision = some decision;
        prior = txn.prior;
      })
      else feed_rule_learning (record {
        event = Effect.RuleLearningKind.confirm;
        payee = payee;
        decision = some decision;
        prior = none;
      })

  -- `_reapply`
  unfoldable pub reapply : Revising → Decision → Result Transition
  unfolding revision_learning is_correction
  reapply txn decision = do
    nxt ← enter_open txn.core decision
    ok (
        advance_to nxt (
          revision_learning txn decision
          ∷ send_message Effect.MessagePurpose.revise_summary none (some decision)
          ∷ set_timer Effect.TimerKind.archive (now +ℤ policy.archive_window)
          ∷ []))

  -- The branch of `_resolve_no_change` that re-arms patience.
  unfoldable pub rearm_patience : TxnCore → Transition
  rearm_patience core =
      let deadline = now +ℤ policy.patience_window in
      advance_to (await_human core deadline AwaitingFlag.none)
        (set_timer Effect.TimerKind.patience deadline ∷ [])

  -- `_resolve_no_change`
  unfoldable pub resolve_no_change : TxnCore → RevisingOrigin → Option Decision → Result Transition
  unfolding rearm_patience
  resolve_no_change core RevisingOrigin.applied (some prior) = do
    nxt ← enter_open core prior
    ok (advance_to nxt (set_timer Effect.TimerKind.archive (now +ℤ policy.archive_window) ∷ []))
  resolve_no_change core _ _ = ok (rearm_patience core)
