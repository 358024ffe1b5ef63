-- ===== src/Driver/Runs.antt =====
-- What holds of every run of the workflow, whatever the world does.
use ynab_agent.Common.{
  ◌≡◌, refl, sym, Bool, true, false, ℕ, zero, suc, List, [], ◌++◌, arith, activity_error,
  value_error, index_error, key_error, if◌then◌else◌, raise,
}
use mathlib.Core.List.{append-nil}
use ynab_agent.Domain.Enums.{TxnState}
use ynab_agent.Domain.Signal.{InboundSignal}
use ynab_agent.Domain.Transaction.{Transaction}
use ynab_agent.Lifecycle.Values.{state}
use ynab_agent.Lifecycle.Validity.{IsValid}
use ynab_agent.Lifecycle.Writes.{unverified}
use ynab_agent.Driver.World.{
  World, Driver, TransactionParams, Outcome, done, raised, waiting, exhausted, Run,
}
use ynab_agent.Driver.Action.{◌>>=◌, continue, lift, pure, has_inbound, call}
use ynab_agent.Driver.Effects.{sync_thread_id, thread_of}
use ynab_agent.Driver.Steps.{is_resting, is_archived}
use ynab_agent.Driver.Loop.{
  start, resumed_txn, resume_params, Ending, finished, continued, unfinished, is_due, unless,
  rounds, paged, run,
}
use ynab_agent.Driver.Ensures.{Ensures, Done, Ensures-bind, Ensures-gets, Ensures-pure}
use ynab_agent.Driver.Consistent.{Settled, carrying, stay}
use ynab_agent.Driver.Dispatching.{mirrored-Mirrors}
use ynab_agent.Driver.Resting.{step-Settled}

-- The transaction that the params start with.
abbrev pub first_txn : TransactionParams → Transaction
first_txn params = resumed_txn params params.resume_txn

-- The mail that the params bring.
abbrev pub first_mail : TransactionParams → List InboundSignal
first_mail params = carrying (first_txn params) ++ params.resume_inbound

-- Params that start a workflow at rest.
pub record IsResumable (params : TransactionParams) : Type 0 where
  pub legal : IsValid (first_txn params)
  pub verified : unverified (first_txn params) ≡ []

-- How the state is where the loop ends.
abbrev pub Ends : Ending → Driver → Type 0
Ends finished d = is_archived d.txn ≡ true
Ends (continued params) d =
    (params ≡ resume_params d) × (is_resting d.txn ≡ true) × (d.inbound ≡ [])
Ends unfinished d = Unit

no_inbound : (d : Driver) → has_inbound d ≡ false → d.inbound ≡ []
no_inbound d h = ground arith

module _ (world : World) where
  due : (d : Driver) → is_due world d ≡ true → (is_resting d.txn ≡ true) × (d.inbound ≡ [])
  unfolding is_due
  due d h = (ground arith, no_inbound d (ground arith))

  module _ (old : List InboundSignal) (from : TxnState) (base : ℕ) where
    -- At the end of the loop, or of so many rounds of it.
    abbrev pub Rested : Ending → Driver → Type 0
    Rested ending d = Settled old from base d × Ends ending d

    again :
        (n : ℕ) (d : Driver) (b : Bool)
        → is_due world d ≡ b
        → ((d' : Driver)
            → Settled old from base d'
            → Ensures (Settled old from base) Rested (rounds world n) d')
        → Settled old from base d
        → Ensures
            (Settled old from base)
            Rested
            (if b then pure (continued (resume_params d)) else rounds world n)
            d
    again n d true e rest s = Ensures-pure _ d (s, let (r, i) = due d e in (refl, r, i))
    again n d false e rest s = rest d s

    tested :
        (closed : Bool) (body : Run Ending) (d : Driver)
        → is_archived d.txn ≡ closed
        → Settled old from base d
        → Ensures (Settled old from base) Rested body d
        → Ensures (Settled old from base) Rested (unless closed body) d
    unfolding unless
    tested true body d e s b = Ensures-pure finished d (s, e)
    tested false body d e s b = b

    pub rounds-Rested :
        (n : ℕ) (d : Driver)
        → Settled old from base d
        → Ensures (Settled old from base) Rested (rounds world n) d
    unfolding rounds
    rounds-Rested zero d s = Ensures-pure unfinished d (s, tt)
    rounds-Rested (suc n) d s = Ensures-gets _ _ d (
        tested (is_archived d.txn) _ d refl s (
          Ensures-bind (step-Settled old from base world d s) (λ _ d1 s1.
            Ensures-gets _ _ d1
              (Ensures-gets _ _ d1 (again n d1 (is_due world d1) refl (rounds-Rested n) s1)))))

  -- The start, with what it starts from.
  start-Settled :
      (params : TransactionParams)
      → IsResumable params
      → Settled
          (first_mail params)
          (state (first_txn params))
          params.resume_action_seq
          (start params)
  unfolding start sync_thread_id
  start-Settled params r = record {
    consistent = record {
      mail = sym (append-nil (first_mail params));
      mirror = mirrored-Mirrors (thread_of (first_txn params)) params.thread_id;
      fresh = omega arith;
      route = stay;
      legal = r.legal;
    };
    verified = r.verified;
  }

  -- At rest, with the mail, the state and the number that the params bring.
  abbrev pub Standing : TransactionParams → Driver → Type 0
  Standing params = Settled (first_mail params) (state (first_txn params)) params.resume_action_seq

  abbrev pub FromParams : TransactionParams → Ending → Driver → Type 0
  FromParams params = Rested (first_mail params) (state (first_txn params)) params.resume_action_seq

  -- A page on the failure of an activity changes no other outcome.
  paged-Done :
      (Rest : Driver → Type 0) (Q : Ending → Driver → Type 0) (r : Outcome Ending × Driver)
      → Done Rest Q r
      → Done Rest Q (paged world r)
  unfolding paged ◌>>=◌ call
  paged-Done Rest Q (done e, d) h = h
  paged-Done Rest Q (raised activity_error, d) h = reraised (world.fails _) _
    where
      reraised :
          (failed : Bool) (d' : Driver)
          → Done Rest Q (
              continue
                (λ (_ : Unit {0}). lift (raise activity_error))
                (if failed then raised activity_error else done tt, d'))
      reraised true d' = tt
      reraised false d' = tt
  paged-Done Rest Q (raised value_error, d) h = tt
  paged-Done Rest Q (raised index_error, d) h = h
  paged-Done Rest Q (raised key_error, d) h = h
  paged-Done Rest Q (waiting, d) h = h
  paged-Done Rest Q (exhausted, d) h = h

  pub run-Done :
      (n : ℕ) (params : TransactionParams)
      → IsResumable params
      → Done (Standing params) (FromParams params) (run world n params)
  unfolding run
  run-Done n params r =
      paged-Done (Standing params) (FromParams params) (rounds world n (start params))
        (rounds-Rested _ _ _ n (start params) (start-Settled params r)).holds
