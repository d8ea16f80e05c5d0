-- ===== src/Experiments.antt =====
-- crates/rlab-core/src/experiments: experiment specifications, their matrices of parameters, and
-- the jobs that they are planned as.
pub mod Matrix
pub mod Retry
pub mod Planner
mod Tests
