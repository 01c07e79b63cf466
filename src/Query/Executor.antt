-- ===== src/Query/Executor.antt =====
-- pkg/query/executor.go: series and points, and the evaluation of an expression over a storage.
pub mod Series
pub mod Aggregation
pub mod Rate
pub mod Sorting
pub mod Extremes
pub mod Evaluation
