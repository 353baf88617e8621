-- ===== src/Tests.antt =====
-- Runs of the definitions on small inputs, and the theorems at concrete arguments.
pub mod Common
pub mod Plan
pub mod Exec
pub mod Sql
pub mod Like
pub mod Dates
pub mod OrFactoring
pub mod SetOperation
pub mod PartScheduler
pub mod KeyFilter
