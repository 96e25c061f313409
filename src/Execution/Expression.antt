-- ===== src/Execution/Expression.antt =====
-- src/include/execution/expression: what the filter and the projection operators evaluate.
pub mod Filters
pub mod Projections
