-- ===== src/Core.antt =====
-- The core of the repository, its root package: records (record.go), the store interface
-- (store.go), and the state machine of `Begin` and `Finish` (idemlease.go).
pub mod Time
pub mod Record
pub mod Store
pub mod Spec
pub mod Contract
pub mod Node
pub mod Shared
pub mod Lease
