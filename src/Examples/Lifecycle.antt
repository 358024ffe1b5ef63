-- ===== src/Examples/Lifecycle.antt =====
-- The lifecycle at concrete transactions.
use ynab_agent.Common.{◌≡◌, refl, false, none, some, List, [], ◌∷◌, ◌↔◌, ok}
use ynab_agent.Domain.Ids.{Datetime}
use ynab_agent.Domain.Enums.{TxnState}
use ynab_agent.Domain.Transaction.{
  awaiting_human, auto_applied, opened, born, applied, is_unbalanced,
}
use ynab_agent.Domain.Event.{
  LifecycleEvent, answer_received, write_verified, match, snapshot_materialized,
  archive_window_reached, enriched, ask_human,
}
use ynab_agent.Common.Int.{◌+ℤ◌}
use ynab_agent.Domain.Effect
use ynab_agent.Domain.Effect.{send_message, set_timer, commit_to_ynab, cancel_timer}
use ynab_agent.Lifecycle.Handlers.{archive_timer, patience_timer}
use ynab_agent.Lifecycle.{advance, run}
use ynab_agent.Lifecycle.Values.{Transition, advanced, ignored}
use ynab_agent.Lifecycle.Validity.{
  IsValid, Acceptable, Returns, advance-IsValid, advance-Returns_iff,
}
use ynab_agent.Lifecycle.Graph.{◌⟶◌, advance-⟶}
use ynab_agent.Lifecycle.Writes.{commits, unverified, commits-advance}
use ynab_agent.Lifecycle.Archiving.{is_archived, unreconciled_never_archived}
use ynab_agent.Examples.Samples.{
  now, windows, coffee, core, answer, automatic, waiting, settled, unproven, guess,
}

-- What `advance` makes of the owner's answer.
abbrev answered : Transition
answered = record {
  kind = advanced;
  next = applied (record { core = core; decision = answer });
  effects = commit_to_ynab answer ∷ cancel_timer patience_timer ∷ [];
  reason = none;
}

answered_lem : advance now windows (awaiting_human waiting) (answer_received answer) ≡ ok answered
unfolding advance is_unbalanced
answered_lem = refl

advance-IsValid_example : IsValid answered.next
advance-IsValid_example =
    advance-IsValid now windows (awaiting_human waiting) (answer_received answer) tt answered_lem

advance-Returns_iff_example :
    Returns (advance now windows (awaiting_human waiting) (answer_received answer))
    ↔ Acceptable (awaiting_human waiting) (answer_received answer)
advance-Returns_iff_example =
    advance-Returns_iff now windows (awaiting_human waiting) (answer_received answer) tt

advance-⟶_example : TxnState.awaiting_human ⟶ TxnState.applied
advance-⟶_example =
    advance-⟶ now windows (awaiting_human waiting) (answer_received answer) answered_lem refl

commits-advance_example : commits answered.effects ≡ unverified answered.next
commits-advance_example =
    commits-advance now windows (awaiting_human waiting) (answer_received answer) answered_lem refl

-- An archive window that passes before the reconciliation.
abbrev too_early : Transition
too_early = record {
  kind = ignored;
  next = opened settled;
  effects = [];
  reason = some "not reconciled yet; staying OPEN";
}

too_early_lem : advance now windows (opened settled) archive_window_reached ≡ ok too_early
unfolding advance
too_early_lem = refl

-- The verification of an automatic write.
abbrev verified : Transition
verified = record {
  kind = advanced;
  next = opened (record { core = core; decision = automatic });
  effects =
      send_message Effect.MessagePurpose.fyi none (some automatic)
      ∷ set_timer archive_timer (now +ℤ windows.archive_window)
      ∷ [];
  reason = none;
}

verified_lem : advance now windows (auto_applied unproven) (write_verified match) ≡ ok verified
unfolding advance is_unbalanced
verified_lem = refl

-- A life: polled, asked about, answered, verified, and left alone past the archive window.
abbrev life : List (Datetime × LifecycleEvent)
life =
    (now, snapshot_materialized coffee false)
    ∷ (now, enriched (ask_human guess))
    ∷ (now, answer_received answer)
    ∷ (now, write_verified match)
    ∷ (now, archive_window_reached)
    ∷ []

life_lem : run windows (born "t1" none) life ≡ ok (opened settled)
unfolding run advance born is_unbalanced
life_lem = refl

stays_lem : run windows (opened settled) ((now, archive_window_reached) ∷ []) ≡ ok (opened settled)
unfolding run advance
stays_lem = refl

unreconciled_never_archived_example : is_archived (opened settled) ≡ false
unreconciled_never_archived_example =
    unreconciled_never_archived windows coffee ((now, archive_window_reached) ∷ []) (opened settled)
      refl refl refl stays_lem
