-- ===== src/Provider/Effects.antt =====
-- What the provider does to the world besides its own state: writes to the API server, counters and
-- events. Log lines are left out, and so are the texts of events; an event is its reason and the name
-- of the object that it is about.
use karpenter_provider_cleve.Base.{Text, Bool, false, true, List, [], ◌∷◌}
use karpenter_provider_cleve.Provider.Backoff.{FastFail}

-- Counters of pkg/metrics/metrics.go.
pub data Counter : Type 0 where
  node_group_quota_rejections node_group_rejections node_group_vanished
        node_group_acceptance_timeouts gc_reaped_node_groups :
      Counter

pub data EventReason : Type 0 where
  quota_exceeded_event rejected_event vanished_event transient_failure_event
        acceptance_timeout_event garbage_collected_event gc_refused_event externally_resized_event
        sync_overdue_event deletion_overdue_event :
      EventReason

pub data Effect : Type 0 where
  deletes : Text → Effect
  deletes_claim : Text → Effect
  counts : Counter → Effect
  publishes : EventReason → Text → Effect

-- The errors of `Create`: those with a type of their own, and the rest.
pub data CreateError : Type 0 where
  quota_exceeded : Text → Text → CreateError
  backed_off : FastFail → CreateError
  flavor_rejected : Text → Text → Text → CreateError
  vanished : Text → CreateError
  cancelled : CreateError
  not_owned : Text → CreateError
  failed : Text → CreateError

-- A NodeGroup's deletion is among the effects.
unfoldable pub deletes_any : List Effect → Bool
deletes_any [] = false
deletes_any (deletes name ∷ es) = true
deletes_any (deletes_claim name ∷ es) = deletes_any es
deletes_any (counts c ∷ es) = deletes_any es
deletes_any (publishes reason name ∷ es) = deletes_any es
