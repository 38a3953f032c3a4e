-- ===== src/Rosa.antt =====
-- crates/collecta-server/src/openrosa: the interface that speaks OpenRosa, for ODK Collect.
pub mod Result
pub mod Tree
pub mod Instance
pub mod Mapping
pub mod Parts
pub mod Storing
pub mod Submitting
mod Tests
