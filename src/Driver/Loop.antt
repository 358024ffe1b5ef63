-- ===== src/Driver/Loop.antt =====
-- workflow/txn_workflow.py: `run`, its loop and continue-as-new.
use ynab_agent.Common.{
  String, ◌<>◌, ltb, ℕ, zero, suc, Bool, true, false, not, ◌&&◌, Option, none, some, [],
  activity_error, value_error, index_error, key_error, raise, if◌then◌else◌,
}
use ynab_agent.Domain.Transaction.{
  TxnCore, Transaction, discovered, hold_amazon, enriching, auto_applied, awaiting_human, applied,
  opened, lapsed, revising, archived, born,
}
use ynab_agent.Driver.World.{World, Driver, Entry, TransactionParams, Outcome, done, raised, Run}
use ynab_agent.Driver.Action.{pure, gets, ◌>>=◌, ◌>>◌, has_inbound, call, lift}
use ynab_agent.Driver.Effects.{sync_thread_id}
use ynab_agent.Driver.Steps.{is_resting, is_archived, step}

-- `_resume_params`
unfoldable pub resume_params : Driver → TransactionParams
resume_params d = record {
  ynab_id = d.ynab_id;
  thread_id = d.thread_id;
  resume_txn = some d.txn;
  resume_deadlines = d.deadlines;
  resume_inbound = d.inbound;
  resume_action_seq = d.action_seq;
}

-- `params.resume_txn or born(...)`
abbrev pub resumed_txn : TransactionParams → Option Transaction → Transaction
resumed_txn params none = born params.ynab_id params.thread_id
resumed_txn params (some txn) = txn

-- The first assignments of `run`.
unfoldable pub start : TransactionParams → Driver
unfolding sync_thread_id
start params = sync_thread_id (record {
  ynab_id = params.ynab_id;
  thread_id = params.thread_id;
  txn = resumed_txn params params.resume_txn;
  deadlines = params.resume_deadlines;
  inbound = params.resume_inbound;
  snapshot_ready = none;
  action_seq = params.resume_action_seq;
  log = [];
})

-- How the loop of `run` ends: with the archived transaction or a continue-as-new. `unfinished` says
-- that it has not ended within the rounds.
pub data Ending : Type 0 where
  finished : Ending
  continued : TransactionParams → Ending
  unfinished : Ending

-- `_CONTINUE_AS_NEW_AFTER`
abbrev pub continue_as_new_after : ℕ
continue_as_new_after = 4_000

abbrev located : String → TxnCore → String
located ynab_id core = core.snapshot.payee <> (" (txn " <> (ynab_id <> ")"))

-- `_alert_context`
unfoldable pub alert_context : String → Transaction → String
alert_context ynab_id (discovered _) = "txn " <> ynab_id
alert_context ynab_id (hold_amazon t) = located ynab_id t.core
alert_context ynab_id (enriching t) = located ynab_id t.core
alert_context ynab_id (auto_applied t) = located ynab_id t.core
alert_context ynab_id (awaiting_human t) = located ynab_id t.core
alert_context ynab_id (applied t) = located ynab_id t.core
alert_context ynab_id (opened t) = located ynab_id t.core
alert_context ynab_id (lapsed t) = located ynab_id t.core
alert_context ynab_id (revising t) = located ynab_id t.core
alert_context ynab_id (archived t) = located ynab_id t.core

-- The test of the loop.
unfoldable pub unless : Bool → Run Ending → Run Ending
unless true body = pure finished
unless false body = body

module _ (world : World) where
  -- Whether `run` continues as new after a step.
  unfoldable pub is_due : Driver → Bool
  is_due d =
      is_resting d.txn
      && not (has_inbound d)
      && ltb continue_as_new_after (world.history_length d.log)

  -- The loop of `run`, for so many rounds.
  unfoldable pub rounds : ℕ → Run Ending
  rounds zero = pure unfinished
  rounds (suc n) = do
    closed ← gets (λ d. is_archived d.txn)
    unless closed (do
      step world
      due ← gets is_due
      resume ← gets resume_params
      if due then pure (continued resume) else rounds n)

  -- The `except ActivityError` of `run`: a page, then the error again.
  unfoldable pub paged : Outcome Ending × Driver → Outcome Ending × Driver
  paged (raised activity_error, d) =
      (do
        call world (Entry.alert_failure d.ynab_id (alert_context d.ynab_id d.txn))
        lift (raise activity_error))
        d
  paged (raised value_error, d) = (raised value_error, d)
  paged (raised index_error, d) = (raised index_error, d)
  paged (raised key_error, d) = (raised key_error, d)
  paged (done ending, d) = (done ending, d)
  paged (Outcome.waiting, d) = (Outcome.waiting, d)
  paged (Outcome.exhausted, d) = (Outcome.exhausted, d)

  -- `run`
  unfoldable pub run : ℕ → TransactionParams → Outcome Ending × Driver
  run n params = paged (rounds n (start params))
