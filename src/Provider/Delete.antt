-- ===== src/Provider/Delete.antt =====
-- pkg/providers/nodegroup/nodegroup.go, `Delete` and `RecordLateRefusal`. The DELETE's reply and the
-- calls that other goroutines make while it is under way are arguments.
pub mod Forgetting
use karpenter_provider_cleve.Base.{
  ℕ, Bool, not, ◌||◌, Option, none, some, List, [], ◌∷◌, Text, if◌then◌else◌,
}
use karpenter_provider_cleve.Api.NodeGroup.{
  NodeGroup, is_quota_exceeded, is_refused, is_synced, refusal,
}
use karpenter_provider_cleve.Provider.Backoff.{
  Backoff, Catalogue, record_quota_rejection, record_flavor_rejection, quota_rejection_mark,
  clear_quota_rejections,
}
use karpenter_provider_cleve.Provider.Backoff.Marks.{Call, run}
use karpenter_provider_cleve.Provider.Effects.{
  Effect, counts, publishes, node_group_quota_rejections, node_group_rejections,
  quota_exceeded_event, rejected_event,
}
use karpenter_provider_cleve.Provider.Acceptance.{failure_message}

-- The API server's answer to a DELETE.
pub data DeleteReply : Type 0 where
  accepted absent : DeleteReply
  rejected : Text → DeleteReply

-- What the accepted DELETE of a group says of the quota: nothing, if the group was refused and never
-- synced.
unfoldable pub forget_quota : NodeGroup → ℕ → Backoff → Backoff
forget_quota ng mark b =
    if is_synced ng || not (is_refused ng) then clear_quota_rejections mark b else b

-- `Delete`: the error, if any, is the reply itself.
unfoldable pub delete : Catalogue → NodeGroup → List Call → DeleteReply → Backoff → Backoff
unfolding forget_quota
delete sizing ng calls accepted b = forget_quota ng (quota_rejection_mark b) (run sizing calls b)
delete sizing ng calls absent b = run sizing calls b
delete sizing ng calls (rejected message) b = run sizing calls b

-- What `RecordLateRefusal` leaves: the state, the counters and the events.
pub record Recorded : Type 0 where
  pub backoff : Backoff
  pub effects : List Effect

-- `RecordLateRefusal` at the instant `now`
unfoldable pub record_late_refusal : Catalogue → ℕ → Text → NodeGroup → Backoff → Recorded
record_late_refusal sizing now claim ng b =
    if is_quota_exceeded ng
    then record {
      backoff = record_quota_rejection sizing now ng.spec.flavor (failure_message ng) b;
      effects = counts node_group_quota_rejections ∷ publishes quota_exceeded_event claim ∷ [];
    }
    else elim (refusal ng) [
      | none ↦ record { backoff = b; effects = [] }
      | some r ↦ record {
        backoff = record_flavor_rejection now ng.spec.flavor b;
        effects = counts node_group_rejections ∷ publishes rejected_event claim ∷ [];
      }
    ]
