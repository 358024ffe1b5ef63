-- ===== src/Driver/Consistent.antt =====
-- The invariant of a running workflow.
use ynab_agent.Common.{◌≡◌, ℕ, suc, ◌<◌, Option, none, some, List, [], ◌∷◌, ◌++◌}
use ynab_agent.Domain.Ids.{ThreadId}
use ynab_agent.Domain.Enums.{TxnState}
use ynab_agent.Domain.Signal.{InboundSignal}
use ynab_agent.Domain.Transaction.{Transaction, discovered, revising}
use ynab_agent.Lifecycle.Values.{state}
use ynab_agent.Lifecycle.Graph.{◌⟶◌}
use ynab_agent.Lifecycle.Validity.{IsValid}
use ynab_agent.Lifecycle.Writes.{unverified}
use ynab_agent.Driver.World.{Driver, Log, arrived, submit_inbound, interpret, converge, send}
use ynab_agent.Driver.Effects.{thread_of}

-- A walk in the lifecycle's diagram.
pub data Walk (s : TxnState) : TxnState → Type 0 where
  stay : Walk s s
  along : {t u : TxnState} → Walk s t → t ⟶ u → Walk s u

-- The instruction that a revision works on.
abbrev pub in_hand : Transaction → List InboundSignal
in_hand (revising t) = t.instruction ∷ []
in_hand _ = []

-- What a transaction without a snapshot has put aside.
abbrev pub buffered : Transaction → List InboundSignal
buffered (discovered t) = t.pending
buffered _ = []

abbrev pub carrying : Transaction → List InboundSignal
carrying txn = in_hand txn ++ buffered txn

-- The signals that a model was given to act on, in order.
abbrev pub handled : Log → List InboundSignal
handled [] = []
handled (interpret sig _ _ ∷ log) = handled log ++ sig ∷ []
handled (converge _ sig _ ∷ log) = handled log ++ sig ∷ []
handled (_ ∷ log) = handled log

-- The signals that reached the workflow, in order.
abbrev pub submitted : Log → List InboundSignal
submitted [] = []
submitted (arrived (submit_inbound sig) ∷ log) = submitted log ++ sig ∷ []
submitted (_ ∷ log) = submitted log

-- The numbers under which messages were sent, the last first.
abbrev pub keys : Log → List ℕ
keys [] = []
keys (send _ _ _ seq _ _ _ ∷ log) = seq ∷ keys log
keys (_ ∷ log) = keys log

-- All above `base` and below the bound, and each below the one before.
abbrev pub Descends : ℕ → ℕ → List ℕ → Type 0
Descends base n [] = base < n
Descends base n (k ∷ ks) = (k < n) × Descends base k ks

-- The workflow knows the thread that the transaction names.
abbrev pub Mirrors : Option ThreadId → Option ThreadId → Type 0
Mirrors none _ = Unit
Mirrors (some tid) mirror = mirror ≡ some tid

-- `old` is the inbound mail at the start, `from` the state, and `base` the number of the last message.
module _ (old : List InboundSignal) (from : TxnState) (base : ℕ) where
  -- Between the signals that were handled and the inbound queue there are `between`.
  pub record Consistent (between : List InboundSignal) (d : Driver) : Type 0 where
    pub mail : handled d.log ++ (between ++ d.inbound) ≡ old ++ submitted d.log
    pub mirror : Mirrors (thread_of d.txn) d.thread_id
    pub fresh : Descends base (suc d.action_seq) (keys d.log)
    pub route : Walk from (state d.txn)
    pub legal : IsValid d.txn

  -- The invariant between two steps: the signals on their way are those that the transaction
  -- carries, and no write is without its verification.
  pub record Settled (d : Driver) : Type 0 where
    pub consistent : Consistent (carrying d.txn) d
    pub verified : unverified d.txn ≡ []

  -- The state with its transaction unchanged.
  pub record Kept (between : List InboundSignal) (txn : Transaction) (d : Driver) : Type 0 where
    pub consistent : Consistent between d
    pub unchanged : d.txn ≡ txn
