-- ===== src/Storage.antt =====
-- crates/rlab-core/src/run/storage.rs and artifact/gc.rs: what is removed from finished runs and
-- from the artifact store, and the patterns that name files.
pub mod Glob
pub mod Retention
pub mod Collect
pub mod Cache
mod Tests
