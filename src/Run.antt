-- ===== src/Run.antt =====
-- crates/rlab-core/src/run: the life cycle of a run. `State` is state.rs and `Session` is the
-- session of lifecycle.rs over the files of its directory.
pub mod State
pub mod Order
pub mod Metric
pub mod Query
pub mod Compare
pub mod Files
pub mod Triple
pub mod Session
pub mod Create
mod Tests
