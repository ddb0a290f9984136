-- ===== src/Benchmark.antt =====
-- benchmark/: the grades of the reasoning benchmark, and the decision that they lead to.
pub mod Contract
pub mod Grader
pub mod Rubric
pub mod Results
mod Tests
