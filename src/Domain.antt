-- ===== src/Domain.antt =====
-- The value types of src/ynab_agent/domain: one child for each Python module.
pub mod Ids
pub mod Enums
pub mod Money
pub mod Allocation
pub mod Proposal
pub mod Signal
pub mod Rule
pub mod Transaction
pub mod Event
pub mod Effect
