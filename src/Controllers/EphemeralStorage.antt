-- ===== src/Controllers/EphemeralStorage.antt =====
-- pkg/controllers/ephemeralstorage/controller.go: the disk reference, read from one node. The log is not
-- modelled.
pub mod Offers
use karpenter_provider_cleve.Base.{
  ℕ, Bool, true, false, not, ◌&&◌, Option, none, some, Text, text_eq, is_empty, is_some,
  if◌then◌else◌,
}
use karpenter_provider_cleve.Flavor.Numbers.{Doubles, ephemeral_storage, ResourceList, Quantities}
use karpenter_provider_cleve.Flavor.Reports.{figure}
use karpenter_provider_cleve.Flavor.TypeProvider.{
  TypeProvider, SetResult, set, require_reference, invalidate_reference, set_reference,
}
use karpenter_provider_cleve.Controllers.Reads.{Answer, got, nothing, broken}

-- The node's deletion timestamp and status.
pub record HostNode (Q : Type 0) : Type 0 where
  pub deleted : Option ℕ
  pub capacity : ResourceList Q
  pub allocatable : ResourceList Q

-- The provider, and the three gauges that the controller sets.
pub record State (Q W : Type 0) : Type 0 where
  pub provider : TypeProvider Q W
  pub ready_gauge : ℕ
  pub capacity_gauge : W
  pub allocatable_gauge : W

module _ {Q W : Type 0} (q : Quantities Q W) (d : Doubles W) where
  -- `NewController`
  unfoldable pub new_controller : TypeProvider Q W → State Q W
  unfolding require_reference
  new_controller p = record {
    provider = require_reference q d p;
    ready_gauge = 0;
    capacity_gauge = d.of_count 0;
    allocatable_gauge = d.of_count 0;
  }

  -- `invalidate`
  unfoldable pub invalidate : State Q W → State Q W
  unfolding invalidate_reference
  invalidate s = record s { provider = invalidate_reference q d s.provider; ready_gauge = 0 }

  -- What the two quantities of a live node lead to; `true` is no error.
  unfoldable pub take_reference : Q → Q → State Q W → Bool × State Q W
  unfolding set_reference invalidate
  take_reference capacity allocatable s =
      let (p, result) = set_reference q d s.provider capacity allocatable in
      elim result [
        | set changed ↦ (
          true,
          record {
            provider = p;
            ready_gauge = 1;
            capacity_gauge = q.approximate capacity;
            allocatable_gauge = q.approximate allocatable;
          },
        )
        | _ ↦ (false, invalidate (record s { provider = p }))
      ]

  -- What the read of the node leads to.
  unfoldable pub read_reference : Answer (HostNode Q) → State Q W → Bool × State Q W
  unfolding invalidate take_reference figure
  read_reference nothing s = (false, invalidate s)
  read_reference broken s = (false, s)
  read_reference (got node) s =
      if is_some node.deleted
      then (false, invalidate s)
      else take_reference (figure q (node.capacity ephemeral_storage))
          (figure q (node.allocatable ephemeral_storage)) s

  -- `Reconcile`, of a request by the controller of the node of that name
  unfoldable pub reconcile : Text → Text → Answer (HostNode Q) → State Q W → Bool × State Q W
  unfolding read_reference
  reconcile node_name request answer s =
      if not (is_empty request) && not (text_eq request node_name)
      then (true, s)
      else read_reference answer s
