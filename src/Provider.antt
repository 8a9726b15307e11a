-- ===== src/Provider.antt =====
-- pkg/providers/nodegroup: the provider of NodeGroups, one module for each of its concerns.
pub mod Identity
pub mod Backoff
pub mod Effects
pub mod Acceptance
pub mod Admission
pub mod Payload
pub mod Create
pub mod Delete
