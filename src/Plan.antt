-- ===== src/Plan.antt =====
-- src/plan: the types of the engine, predicates and the rules the planner decides by.
pub mod Types
pub mod KeyType
pub mod TypeFold
pub mod BranchTruth
pub mod Conjuncts
pub mod ImpliedLists
pub mod OrFactoring
pub mod Predicate
pub mod FoldComparison
pub mod JoinKind
pub mod Widening
pub mod NumberText
pub mod DateText
pub mod TimeText
pub mod SetFormula
