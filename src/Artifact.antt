-- ===== src/Artifact.antt =====
-- crates/rlab-core/src/artifact: references to artifacts and the store that holds them.
pub mod Reference
pub mod Layout
pub mod Store
pub mod Lookup
pub mod Sweep
pub mod Resolve
mod Tests
