-- ===== src/CloudProvider/Outcome.antt =====
-- pkg/cloudprovider: what its methods return.
use karpenter_provider_cleve.Base.{ℕ}
use karpenter_provider_cleve.Provider.Effects.{CreateError}

-- What an error is about.
pub data Reason : Type 0 where
  claim_missing claim_unread claim_replaced claim_deleting : Reason
  class_missing class_unread class_unready class_terminating : Reason
  group_missing group_unread group_foreign group_unmanaged group_terminating : Reason
  disk_unready disk_limited node_pool_unread bad_snapshot bad_provider_id delete_failed : Reason
  no_flavor : ℕ → Reason
  creation : CreateError → Reason

-- The types of error that karpenter-core tells apart.
pub data CloudError : Type 0 where
  insufficient_capacity node_class_not_ready node_claim_not_found create_error plain :
      Reason → CloudError

pub data Result (A : Type 0) : Type 0 where
  done : A → Result A
  fails : CloudError → Result A
