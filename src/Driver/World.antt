-- ===== src/Driver/World.antt =====
-- workflow/txn_workflow.py and workflow/types.py: the state of a `TransactionWorkflow`, and the
-- world that it runs in. What an activity returns, which signals arrive while the workflow waits
-- and what the clock shows are functions of all that has been called so far, so that any behaviour
-- of the outside is one `World`.
use ynab_agent.Common.{String, Bool, ℕ, Option, some, List, [], ◌∷◌, ◌++◌, Exception}
use ynab_agent.Domain.Ids.{ThreadId, YnabTransactionId, Datetime, Timedelta}
use ynab_agent.Domain.Proposal.{Proposal, Decision}
use ynab_agent.Domain.Signal.{InboundSignal}
use ynab_agent.Domain.Transaction.{YnabSnapshot, Transaction}
use ynab_agent.Domain.Event.{EnrichmentOutcome, ConvergeOutcome}
use ynab_agent.Domain.Effect.{
  MessagePurpose, TimerKind, amazon_hold, patience, archive, FeedRuleLearning,
}
use ynab_agent.Lifecycle.Values.{LifecyclePolicy}
use ynab_agent.Policy.Converge.{TargetState}

-- `AnswerOutcome` or `ClarifyOutcome`.
pub data ReplyOutcome : Type 0 where
  answer : Decision → ReplyOutcome
  clarify : String → ReplyOutcome

-- The `dict[TimerKind, datetime]` of deadlines.
abbrev pub Deadlines : Type 0
Deadlines = TimerKind → Option Datetime

pub record TransactionParams : Type 0 where
  pub ynab_id : YnabTransactionId
  pub thread_id : Option ThreadId
  pub resume_txn : Option Transaction
  pub resume_deadlines : Deadlines
  pub resume_inbound : List InboundSignal
  pub resume_action_seq : ℕ

-- One handling of a signal by the workflow.
pub data Arrival : Type 0 where
  submit_inbound : InboundSignal → Arrival
  notify_snapshot : YnabSnapshot → Arrival

-- What the workflow did, and what reached it: its activities with their arguments, its waits with
-- their timeout, and the signals.
pub data Entry : Type 0 where
  fetch_snapshot read_back : YnabTransactionId → Entry
  enrich : YnabSnapshot → Entry
  interpret : InboundSignal → YnabSnapshot → Option Proposal → Entry
  converge : YnabSnapshot → InboundSignal → Option Decision → Entry
  commit : YnabTransactionId → Decision → Entry
  open_thread :
      YnabTransactionId → Option Proposal → MessagePurpose → Option String → Option Decision → Entry
  send :
      YnabTransactionId
      → ThreadId
      → MessagePurpose
      → ℕ
      → Option Proposal
      → Option String
      → Option Decision
      → Entry
  feed_rule_learning : FeedRuleLearning → Entry
  record_auto_action : String → Entry
  close_thread : ThreadId → Entry
  alert_failure : YnabTransactionId → String → Entry
  wait : Option Timedelta → Entry
  arrived : Arrival → Entry

-- The last entry stands first.
abbrev pub Log : Type 0
Log = List Entry

pub record World : Type 0 where
  -- `workflow.now()`
  pub now : Log → Datetime
  -- `DEFAULT_POLICY`
  pub policy : LifecyclePolicy
  -- Whether the activity that was called last fails for good.
  pub fails : Log → Bool
  -- Whether the timeout of the wait that was begun last passes first.
  pub times_out : Log → Bool
  -- The signals that are handled before the call that was begun last is over.
  pub arrivals : Log → List Arrival
  -- The results of the activities.
  pub fetched : Log → Option YnabSnapshot
  pub enriched : Log → EnrichmentOutcome
  pub interpreted : Log → ReplyOutcome
  pub converged : Log → ConvergeOutcome
  pub read : Log → Option TargetState
  pub opened : Log → ThreadId
  -- `get_current_history_length()`
  pub history_length : Log → ℕ
  -- sha256 over the JSON of an end-state, `str.lower` and `str.strip`.
  pub digest : TargetState → String
  pub lower : String → String
  pub strip : String → String

-- `self`, and the log.
pub record Driver : Type 0 where
  pub ynab_id : YnabTransactionId
  pub thread_id : Option ThreadId
  pub txn : Transaction
  pub deadlines : Deadlines
  pub inbound : List InboundSignal
  pub snapshot_ready : Option YnabSnapshot
  pub action_seq : ℕ
  pub log : Log

abbrev pub set_timer : Deadlines → TimerKind → Option Datetime → Deadlines
set_timer deadlines amazon_hold t amazon_hold = t
set_timer deadlines patience t patience = t
set_timer deadlines archive t archive = t
set_timer deadlines _ _ kind = deadlines kind

abbrev pub write : Driver → Entry → Driver
write d entry = record d { log = entry ∷ d.log }

-- The signal handlers `submit_inbound` and `notify_snapshot`.
unfoldable pub receive : Driver → Arrival → Driver
receive d (submit_inbound sig) = record d {
  inbound = d.inbound ++ sig ∷ [];
  log = arrived (submit_inbound sig) ∷ d.log;
}
receive d (notify_snapshot snap) = record d {
  snapshot_ready = some snap;
  log = arrived (notify_snapshot snap) ∷ d.log;
}

unfoldable pub receive_all : Driver → List Arrival → Driver
unfolding receive
receive_all d [] = d
receive_all d (a ∷ as') = receive_all (receive d a) as'

-- How a piece of the workflow ends: it returns, it raises, it waits for a signal that does not
-- come, or the fuel of a recursion is spent.
pub data Outcome {ℓ} (A : Type ℓ) : Type ℓ where
  done : A → Outcome A
  raised : Exception → Outcome A
  waiting : Outcome A
  exhausted : Outcome A

abbrev pub Run {ℓ} : Type ℓ → Type ℓ
Run A = Driver → Outcome A × Driver
