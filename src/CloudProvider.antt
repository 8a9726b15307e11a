-- ===== src/CloudProvider.antt =====
-- The methods that karpenter-core calls, of pkg/cloudprovider.
pub mod Outcome
pub mod Snapshot
pub mod Selection
pub mod Claims
pub mod Launching
