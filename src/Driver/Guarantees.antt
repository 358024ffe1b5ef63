-- ===== src/Driver/Guarantees.antt =====
-- What the workflow promises, for every world and any number of rounds of its loop.
use ynab_agent.Common.{
  ◌≡◌, ◌⊎◌, inl, inr, refl, sym, ap, ◌∙◌, true, ℕ, suc, Option, none, some, [], ◌++◌,
  activity_error, value_error, index_error, key_error,
}
use mathlib.Core.Path.{subst}
use ynab_agent.Domain.Ids.{ThreadId}
use ynab_agent.Lifecycle.Values.{state}
use ynab_agent.Lifecycle.Validity.{IsValid}
use ynab_agent.Lifecycle.Writes.{unverified}
use ynab_agent.Driver.World.{
  World, Driver, TransactionParams, Outcome, done, raised, waiting, exhausted,
}
use ynab_agent.Driver.Effects.{thread_of, mirrored, sync_thread_id}
use ynab_agent.Driver.Steps.{is_resting}
use ynab_agent.Driver.Loop.{start, resume_params, Ending, continued, run}
use ynab_agent.Driver.Ensures.{Done}
use ynab_agent.Driver.Consistent.{carrying, handled, submitted, keys, Descends, Walk, Mirrors}
use ynab_agent.Driver.Runs.{
  Standing, Ends, IsResumable, first_txn, first_mail, FromParams, run-Done,
}

-- How the workflow may end: it returns, waits for a signal, or is stopped by an activity that failed
-- or by a validator that refused.
abbrev pub Orderly : Outcome Ending → Type 0
Orderly (done _) = Unit
Orderly (raised e) = (e ≡ activity_error) ⊎ (e ≡ value_error)
Orderly waiting = Unit
Orderly exhausted = ⊥

-- A run that has neither failed nor been cut off.
abbrev pub IsStanding : Outcome Ending → Type 0
IsStanding (done _) = Unit
IsStanding waiting = Unit
IsStanding _ = ⊥

Done-Standing :
    (Rest : Driver → Type 0) (Q : Ending → Driver → Type 0) (o : Outcome Ending) (d : Driver)
    → IsStanding o
    → Done Rest (λ ending d'. Rest d' × Q ending d') (o, d)
    → Rest d
Done-Standing Rest Q (done _) d i h = h.0
Done-Standing Rest Q (raised _) d i h = absurd i
Done-Standing Rest Q waiting d i h = h
Done-Standing Rest Q exhausted d i h = absurd i

Done-Orderly :
    (Rest : Driver → Type 0) (Q : Ending → Driver → Type 0) (o : Outcome Ending) (d : Driver)
    → Done Rest Q (o, d)
    → Orderly o
Done-Orderly Rest Q (done _) d h = tt
Done-Orderly Rest Q (raised activity_error) d h = inl refl
Done-Orderly Rest Q (raised value_error) d h = inr refl
Done-Orderly Rest Q (raised index_error) d h = absurd h
Done-Orderly Rest Q (raised key_error) d h = absurd h
Done-Orderly Rest Q waiting d h = tt
Done-Orderly Rest Q exhausted d h = h

resumed_mirror :
    (named mirror : Option ThreadId) → Mirrors named mirror → mirrored named mirror ≡ mirror
resumed_mirror none mirror h = refl
resumed_mirror (some tid) mirror h = sym h

start-resume_params :
    (d : Driver)
    → Mirrors (thread_of d.txn) d.thread_id
    → start (resume_params d) ≡ record d { snapshot_ready = none; log = [] }
unfolding start sync_thread_id resume_params
start-resume_params d m =
    ap (λ tid. record d { thread_id = tid; snapshot_ready = none; log = [] })
      (resumed_mirror (thread_of d.txn) d.thread_id m)

resume_params-IsResumable :
    (d : Driver) → IsValid d.txn → unverified d.txn ≡ [] → IsResumable (resume_params d)
unfolding resume_params
resume_params-IsResumable d v u = record { legal = v; verified = u }

module _ (world : World) (n : ℕ) (params : TransactionParams) (resumable : IsResumable params) where
  -- However many rounds a run of the workflow takes, from a state that can be resumed and whatever the
  -- world answers: it never dispatches deeper than its depth of two, and where it ends by an exception,
  -- that is an activity's error or a ValueError. It is never the IndexError of a `popleft` from an empty
  -- queue, nor a KeyError.
  pub run-Orderly : (o : Outcome Ending) (d : Driver) → run world n params ≡ (o, d) → Orderly o
  run-Orderly o d e = Done-Orderly (Standing world params) (FromParams world params) o d (
      subst (Done (Standing world params) (FromParams world params)) e
        (run-Done world n params resumable))

  returned :
      {ending : Ending} {d : Driver}
      → run world n params ≡ (done ending, d)
      → FromParams world params ending d
  returned ends =
      subst (Done (Standing world params) (FromParams world params)) ends
        (run-Done world n params resumable)

  module _ (o : Outcome Ending) (d : Driver) (stands : run world n params ≡ (o, d))
      (rests : IsStanding o) where
    settled : Standing world params d
    settled = Done-Standing (Standing world params) Ends o d rests (
        subst (Done (Standing world params) (FromParams world params)) stands
          (run-Done world n params resumable))

    -- No signal is lost, doubled or overtaken: wherever a run stands, between two rounds of its loop
    -- or waiting for a signal that has not come, the signals that were handed to a model, those that
    -- the transaction carries and those in the queue are, in this order, the mail of the start
    -- followed by all that was submitted since.
    pub no_signal_lost :
        handled d.log ++ (carrying d.txn ++ d.inbound) ≡ first_mail params ++ submitted d.log
    no_signal_lost = settled.consistent.mail

    -- The workflow refines the lifecycle: between two rounds and as it waits, its transaction is legal,
    -- and in a state that the diagram leads to from the state of the start.
    pub run_refines : IsValid d.txn × Walk (state (first_txn params)) (state d.txn)
    run_refines = (settled.consistent.legal, settled.consistent.route)

    -- Between two rounds and as the workflow waits, no write is without its verification, so it never
    -- stands in a state in which its step does nothing.
    pub run-unverified : unverified d.txn ≡ []
    run-unverified = settled.verified

    -- No two messages of a transaction are sent under one number: between two rounds and as the
    -- workflow waits, the numbers have risen with each message from above the number that the run
    -- resumed with, and up to the number that the next run would resume with.
    pub keys-Descends : Descends params.resume_action_seq (suc d.action_seq) (keys d.log)
    keys-Descends = settled.consistent.fresh

  -- A continue-as-new resumes where the run left off: it comes at a resting state with an empty
  -- queue, and its params start a run in the same state, but for the snapshot that was ready and for
  -- the log, and are resumable themselves.
  pub continued-start :
      {next : TransactionParams} {d : Driver}
      → run world n params ≡ (done (continued next), d)
      → (is_resting d.txn ≡ true)
        × (d.inbound ≡ [])
        × (start next ≡ record d { snapshot_ready = none; log = [] })
        × IsResumable next
  continued-start {next} {d} ends =
      let (s, (same, resting, empty)) = returned ends in
      (
        resting,
        empty,
        ap start same ∙ start-resume_params d s.consistent.mirror,
        subst IsResumable (sym same) (resume_params-IsResumable d s.consistent.legal s.verified),
      )
