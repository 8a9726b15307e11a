-- ===== src/Controllers.antt =====
-- The controllers of pkg/controllers.
pub mod Reads
pub mod GarbageCollection
pub mod NodeGroupStatus
pub mod ProviderId
pub mod HashMigration
pub mod Finalization
pub mod NodeClass
pub mod EphemeralStorage
pub mod InstanceTypeCapacity
