-- ===== src/Budget.antt =====
-- src/ynab_agent/budget and the workflows over it: overspend alerts and the budget balancer.
pub mod Overspend
pub mod Ledger
pub mod Monitor
pub mod Balance
