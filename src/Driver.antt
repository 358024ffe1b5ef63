-- ===== src/Driver.antt =====
-- workflow/txn_workflow.py: the driver of a transaction's lifecycle. World, Action, Effects, Steps and
-- Loop are the code; Ensures and what follows it are the proofs, up to Guarantees and Termination.
pub mod World
pub mod Action
pub mod Effects
pub mod Steps
pub mod Loop
pub mod Ensures
pub mod Consistent
pub mod Keeping
pub mod Transitions
pub mod Underway
pub mod Performing
pub mod Depth
pub mod Termination
pub mod Dispatching
pub mod Settling
pub mod Invariant
pub mod Stepping
pub mod Expiry
pub mod Resting
pub mod Runs
pub mod Guarantees
