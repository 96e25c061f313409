-- ===== src/Execution.antt =====
-- src/execution: the operators.
pub mod Operator
pub mod Value
pub mod SeqScan
pub mod Expression
pub mod Filter
pub mod Projection
pub mod RowOps
pub mod UnorderedMultimap
pub mod HashJoin
pub mod RangeIndexScan
pub mod Aggregate
pub mod Kept
pub mod Effects
pub mod Delete
pub mod Insert
pub mod Update
pub mod Plan
