-- ===== src/Examples.antt =====
-- Tests, and the theorems at concrete inputs.
mod Samples
mod Lifecycle
mod Policy
mod Learn
mod Join
mod Converge
mod Budget
mod Alert
mod Driver
mod Mail
