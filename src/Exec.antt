-- ===== src/Exec.antt =====
-- src/exec: the executor's operators and what they share.
pub mod PartPruning
pub mod MemoryBudget
pub mod HeavyHitters
pub mod Limit
pub mod GroupingSets
pub mod Like
pub mod SetOperation
pub mod PartScheduler
pub mod KeyFilter
