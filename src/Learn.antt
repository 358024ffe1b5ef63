-- ===== src/Learn.antt =====
-- src/ynab_agent/learn: the memory that earns autonomy.
pub mod Transitions
pub mod Handler
pub mod Registry
pub mod Workflow
