-- ===== src/Publish.antt =====
-- crates/collecta-server/src/publish.rs: publishing a form's submissions as features of a dataset.
pub mod Wkb
pub mod Json
pub mod Feature
pub mod Client
pub mod Run
pub mod Fresh
pub mod Delivery
pub mod Pending
pub mod Once
pub mod Keeps
pub mod Complete
mod Tests
