-- ===== src/Examples/Driver.antt =====
-- The workflow at a concrete world: a charge is found, asked about, answered, written and verified.
use Prim.Native.Nat.{◌*◌}
use ynab_agent.Common.{
  ◌≡◌, refl, ◌≢◌, ◌++◌, suc, ℕ, true, false, none, some, List, [], ◌∷◌, length, String-discrete,
}
use ynab_agent.Domain.Enums.{TxnState}
use ynab_agent.Domain.Signal.{InboundSignal, reply}
use ynab_agent.Domain.Event.{ask_human, no_change, snapshot_unavailable}
use ynab_agent.Lifecycle.{advance}
use ynab_agent.Lifecycle.Values.{state}
use ynab_agent.Policy.Converge.{target_of, classify_verify, hashes_agree}
use ynab_agent.Driver.World.{
  World, Driver, TransactionParams, Log, Arrival, submit_inbound, receive, receive_all, wait,
  ReplyOutcome, done, exhausted,
}
use ynab_agent.Driver.Action.{
  ◌>>=◌, call, record_entry, wait_until, wait_at_most, pop_left, pop_from,
}
use ynab_agent.Driver.Effects.{
  dispatch, dispatch_within, transition, execute_all, execute, follow, perform, open_thread_with,
  set_thread_id, enter, send, close, commit, sync_thread_id,
}
use ynab_agent.Driver.Steps.{
  step, step_in, on_discovered, after_fetch, on_enriching, on_awaiting, after_patience,
  interpret_inbound, hold_for_amazon, is_resting,
}
use ynab_agent.Driver.Loop.{run, paged, rounds, unless, start, is_due, continued, resume_params}
use ynab_agent.Ingest.{is_amazon, has_memo}
use ynab_agent.Domain.Transaction.{born, is_unbalanced}
use ynab_agent.Lifecycle.Validity.{IsValid}
use ynab_agent.Lifecycle.Writes.{unverified}
use ynab_agent.Driver.Runs.{IsResumable, first_txn, first_mail}
use ynab_agent.Driver.Guarantees.{
  Orderly, run-Orderly, no_signal_lost, run_refines, run-unverified, keys-Descends, continued-start,
}
use ynab_agent.Driver.Termination.{dispatch-terminates}
use ynab_agent.Driver.Consistent.{carrying, handled, submitted, keys, Descends, Walk}
use ynab_agent.Examples.Samples.{now, windows, coffee, answer, guess}

abbrev letter : InboundSignal
letter =
    reply (record { thread_id = "th1"; message_id = "m1"; from_address = "owner"; text = "Dining" })

-- The owner's letter comes during the first wait.
abbrev letters : Log → List Arrival
letters (wait _ ∷ log) = submit_inbound letter ∷ []
letters _ = []

abbrev paid : World
paid = record {
  now = λ log. now;
  policy = windows;
  fails = λ log. false;
  times_out = λ log. false;
  arrivals = letters;
  fetched = λ log. some coffee;
  enriched = λ log. ask_human guess;
  interpreted = λ log. ReplyOutcome.answer answer;
  converged = λ log. no_change;
  read = λ log. some (target_of answer);
  opened = λ log. "th1";
  history_length = λ log. 500 * length log;
  digest = λ target. "digest";
  lower = λ text. text;
  strip = λ text. text;
}

abbrev fresh : TransactionParams
fresh = record {
  ynab_id = "t1";
  thread_id = none;
  resume_txn = none;
  resume_deadlines = λ timer. none;
  resume_inbound = [];
  resume_action_seq = 0;
}

abbrev end : Driver
end = (run paid 3 fresh).1

-- Three rounds: the charge is found, the owner is asked, and the answer is written and verified. The
-- run then continues as new.
ends :
    (run paid 3 fresh ≡ (done (continued (resume_params end)), end))
    × (keys end.log ≡ 1 ∷ [])
    × (handled end.log ≡ letter ∷ [])
    × (state end.txn ≡ TxnState.opened)
unfolding run paged rounds ◌>>=◌ unless start born step step_in on_discovered call after_fetch
    dispatch dispatch_within transition advance receive_all receive execute_all execute follow
    perform open_thread_with set_thread_id enter on_enriching on_awaiting wait_until wait_at_most
    after_patience interpret_inbound pop_left pop_from send close commit is_due hold_for_amazon
    resume_params classify_verify target_of String-discrete sync_thread_id record_entry is_amazon
    has_memo is_unbalanced hashes_agree
ends = (refl, refl, refl, refl)

fresh-IsResumable : IsResumable fresh
unfolding born
fresh-IsResumable = record { legal = tt; verified = refl }

run-Orderly_example : Orderly (done (continued (resume_params end)))
run-Orderly_example =
    run-Orderly paid 3 fresh fresh-IsResumable (done (continued (resume_params end))) end ends.0

no_signal_lost_example :
    handled end.log ++ (carrying end.txn ++ end.inbound) ≡ first_mail fresh ++ submitted end.log
no_signal_lost_example =
    no_signal_lost paid 3 fresh fresh-IsResumable (done (continued (resume_params end))) end ends.0
      tt

run_refines_example : IsValid end.txn × Walk (state (first_txn fresh)) (state end.txn)
run_refines_example =
    run_refines paid 3 fresh fresh-IsResumable (done (continued (resume_params end))) end ends.0 tt

run-unverified_example : unverified end.txn ≡ []
run-unverified_example =
    run-unverified paid 3 fresh fresh-IsResumable (done (continued (resume_params end))) end ends.0
      tt

keys-Descends_example : Descends 0 (suc end.action_seq) (keys end.log)
keys-Descends_example =
    keys-Descends paid 3 fresh fresh-IsResumable (done (continued (resume_params end))) end ends.0
      tt

continued-start_example :
    (is_resting end.txn ≡ true)
    × (end.inbound ≡ [])
    × (start (resume_params end) ≡ record end { snapshot_ready = none; log = [] })
    × IsResumable (resume_params end)
continued-start_example = continued-start paid 3 fresh fresh-IsResumable ends.0

-- The poll of a transaction that YNAB does not show yet.
dispatch-terminates_example :
    ((dispatch paid snapshot_unavailable (start fresh)).0 ≢ exhausted)
    × ((n : ℕ)
        → dispatch_within paid (suc (suc n)) snapshot_unavailable (start fresh)
          ≡ dispatch paid snapshot_unavailable (start fresh))
dispatch-terminates_example = dispatch-terminates paid snapshot_unavailable (start fresh)
