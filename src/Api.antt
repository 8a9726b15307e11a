-- ===== src/Api.antt =====
-- The API objects: pkg/apis, and the fields of the Karpenter objects that the program reads.
pub mod NodeGroup
pub mod NodeClaim
pub mod Labels
pub mod NodeClass
