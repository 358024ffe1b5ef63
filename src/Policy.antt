-- ===== src/Policy.antt =====
-- src/ynab_agent/policy: what the agent may do without asking.
pub mod Resolve
pub mod Floor
pub mod AutoActions
pub mod Gate
pub mod Converge
