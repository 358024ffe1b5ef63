-- ===== src/Lib.antt =====
-- ynab-agent: a model of the agent's deterministic core and the theorems about it.
--
-- The agent watches a household's YNAB budget. Each transaction lives in a workflow that steps a
-- pure state machine; language models propose, and pure policies decide what may be written
-- without asking. Around it stand the rules that confirmations teach, the receipts that mail
-- brings, and the monthly budget: overspend alerts and the moves that cover them. The model is of
-- these parts and of the workflows that drive a transaction and route an e-mail. What they need of
-- the outside, the clock, the verdicts of models and the reads of YNAB, comes in as arguments; what
-- they do to it is the effects, the action or the log of calls that they return.
--
-- Parts and files (paths below src/ynab_agent):
--   Domain: the values of domain/, one module for each Python file. `Money` is in milliunits over
--     unbounded integers, a `datetime` is a number of microseconds and a `date` a number of days.
--     A constructor's validator that raises is a function into `Result`.
--   Lifecycle: domain/state_machine.py. `advance` is `advance`, with a function for each handler
--     in Lifecycle/Handlers; `run` folds it over a sequence of events.
--   Driver: workflow/txn_workflow.py, which feeds the events and carries out the effects. World has
--     `self`, the signal handlers and the `World`: what activities answer, which of them fail, which
--     signals arrive and when a timeout passes, each as a function of the log of calls. Action has
--     awaits and assignments, with the state beside every outcome; Effects has `_dispatch` and
--     `_execute`, Steps the per-state steps, Loop `run` with continue-as-new. Ensures, Consistent, Keeping,
--     Transitions, Underway, Performing, Depth, Dispatching, Settling, Invariant, Stepping, Expiry,
--     Resting and Runs build up the invariant; Guarantees and Termination state what follows.
--   Ingest: ingest/plan.py and ingest/scope.py, the transactions that a poll addresses.
--   Dispatch: dispatch/classify.py and workflow/dispatch_workflow.py, where an e-mail goes.
--   Policy/Resolve, Policy/Floor, Policy/Gate: policy/resolve.py, policy/floor.py, policy/gate.py.
--     `str.lower` is a parameter of the gate.
--   Policy/AutoActions: policy/auto_action_ledger.py, the counters of the circuit breaker.
--     The fold of attempts in Policy/AutoActions/Writes is no function of the program: it takes the
--     check of the floor and the record of the write as one step, which in the program are the gate
--     and an effect of one workflow, with no lock between two workflows.
--   Policy/Converge: policy/converge.py. sha256 over the JSON of an end-state is the parameter
--     `digest`; the theorems that need it take as a hypothesis that it tells states apart.
--   Learn: learn/ and workflow/registry_workflow.py, the rules and their registry. `replay` folds
--     the signal handlers over a history.
--   Join: join/match.py, join/store.py, workflow/receipt_workflow.py and
--     workflow/receipt_ledger_workflow.py: what is done about a receipt, and the table of receipts.
--     Join/Candidates: the pool and the match without a model of workflow/receipt_activities.py.
--   Ynab: the mappings of ynab/client.py and ynab/wire.py between decisions, patches and
--     snapshots. `datetime.date.fromisoformat` is a parameter; what YNAB does with a patch is the
--     hypothesis `Applied` of the round trip.
--   Budget/Overspend, Budget/Ledger, Budget/Monitor: budget/overspend.py, budget/ledger.py and the
--     loop of workflow/monitor_workflow.py.
--   Budget/Balance: budget/balance.py. Planner has `plan_coverage` and the fallback
--     option, Guard has `check_moves` and `validate_option`, Targets has `move_targets`, and Donors
--     the needs and the sources. Sums is the dictionaries that these fill; a `Mapping` that is only
--     read is a function.
--   Alert: alert/ledger.py, which operational alerts go out.
--   Common: lists, tests, integers over the native numbers, orders and sorting.
--   Examples: the theorems at concrete inputs.
--
-- How the parts meet: the driver steps `advance` and reads its effects back as events;
-- `build_auto_decision` of the gate makes the decisions that `advance` takes;
-- the lifecycle's commits go through `to_patch`, and their read-backs through `to_target` and
-- `classify_verify` return as its verification events; its lessons feed the registry, whose rules
-- the gate reads; the monitor's assessments become the balancer's needs.
--
-- Loops and fuel: the loops over lists are recursion on the list. The `while` loop of
-- `plan_coverage` is on fuel, with the shortfall's milliunits: each round covers one
-- at least, and Budget/Balance/Accounts shows that the loop has ended when the fuel is spent. The
-- recursion of `_dispatch` has the depth two, which Driver/Termination shows to be enough. The loop of
-- a workflow need not end: its theorems hold after any number of rounds.
--
-- Not modelled: the bodies of the activities of workflow/ and the HTTP clients of ynab/, mail/,
-- notify/ and webhook/, which are input and output; the prompts of agentic/; the read-only
-- dashboard/; logging, settings and start-up; the texts of mails and receipts; the time zone
-- arithmetic of `period_and_clock`; the poll's workflow and those of balance offers, autonomy offers
-- and commands; retries inside an activity and Temporal's search attributes.
mod Common
pub mod Domain
pub mod Lifecycle
pub mod Policy
pub mod Learn
pub mod Join
pub mod Ynab
pub mod Budget
pub mod Alert
pub mod Driver
pub mod Ingest
pub mod Dispatch
mod Examples
