-- ===== src/Controllers/ProviderId/Uniqueness.antt =====
-- At most one node of a group carries the group's provider ID, however stale the caches are.
use karpenter_provider_cleve.Base.{
  ◌≡◌, inl, inr, false, Option, none, some, Text, any, Bool-cases, lookup, is_some, is_empty,
}
use karpenter_provider_cleve.Api.NodeGroup.{NodeGroup}
use karpenter_provider_cleve.Provider.Identity.{is_managed}
use karpenter_provider_cleve.Provider.Payload.{core_node_pool_label}
use karpenter_provider_cleve.Controllers.Reads.{Answer, got, nothing, broken}
use karpenter_provider_cleve.Controllers.ProviderId.{
  Node, Patch, patched, gone, refused, World, State, carries, strip_node_pool_label, stamp_node,
  stamp_unless_carried, check_group, check_label, check_node, reconcile,
}
use karpenter_provider_cleve.Controllers.ProviderId.Stamps.{
  IsUnique, stamp-IsUnique, strip-IsUnique,
}

module _ (w : World) where
  strip_node_pool_label-IsUnique :
      (reply : Patch) (node : Node) (s : State)
      → IsUnique s.nodes
      → IsUnique (strip_node_pool_label reply node s).1.nodes
  unfolding strip_node_pool_label
  strip_node_pool_label-IsUnique patched node s v =
      elim (Bool-cases (is_some (lookup core_node_pool_label node.labels))) [
        | inr bare ↦ rw (bare, strip_node_pool_label) v
        | inl labelled ↦ rw (labelled, strip_node_pool_label) (strip-IsUnique node.name s.nodes v)
      ]
  strip_node_pool_label-IsUnique gone node s v =
      elim (Bool-cases (is_some (lookup core_node_pool_label node.labels))) [
        | inr bare ↦ rw (bare, strip_node_pool_label) v
        | inl labelled ↦ rw (labelled, strip_node_pool_label) (v)
      ]
  strip_node_pool_label-IsUnique refused node s v =
      elim (Bool-cases (is_some (lookup core_node_pool_label node.labels))) [
        | inr bare ↦ rw (bare, strip_node_pool_label) v
        | inl labelled ↦ rw (labelled, strip_node_pool_label) (v)
      ]

  stamp_node-IsUnique :
      (reply : Patch) (node : Node) (group : Text) (s : State)
      → any (carries group node.name) s.nodes ≡ false
      → IsUnique s.nodes
      → IsUnique (stamp_node reply node group s).1.nodes
  unfolding stamp_node
  stamp_node-IsUnique patched node group s free v = stamp-IsUnique group node.name s.nodes free v
  stamp_node-IsUnique _ node group s free v = v

  stamp_unless_carried-IsUnique :
      (node : Node) (group : Text) (s : State)
      → IsUnique s.nodes
      → IsUnique (stamp_unless_carried w node group s).1.nodes
  unfolding stamp_unless_carried
  stamp_unless_carried-IsUnique node group s v = elim (Bool-cases w.lists) [
    | inr failed ↦ simp (failed, stamp_unless_carried) v
    | inl listed ↦ elim (Bool-cases (any (carries group node.name) s.nodes)) [
      | inl taken ↦
          simp (listed, taken, stamp_unless_carried)
            (strip_node_pool_label-IsUnique w.patch node _ v)
      | inr free ↦
          simp (listed, free, stamp_unless_carried)
            (stamp_node-IsUnique w.patch node group s free v)
    ]
  ]

  check_group-IsUnique :
      (node : Node) (group : Text) (answer : Answer NodeGroup) (s : State)
      → IsUnique s.nodes
      → IsUnique (check_group w node group answer s).1.nodes
  unfolding check_group
  check_group-IsUnique node group nothing s v = v
  check_group-IsUnique node group broken s v = v
  check_group-IsUnique node group (got ng) s v = elim (Bool-cases (is_managed ng)) [
    | inr foreign ↦ rw (foreign, check_group) v
    | inl managed ↦ rw (managed, check_group) (stamp_unless_carried-IsUnique node group s v)
  ]

  check_label-IsUnique :
      (node : Node) (label : Option Text) (s : State)
      → IsUnique s.nodes
      → IsUnique (check_label w node label s).1.nodes
  unfolding check_label
  check_label-IsUnique node none s v = v
  check_label-IsUnique node (some group) s v = check_group-IsUnique node group w.group s v

  check_node-IsUnique :
      (answer : Answer Node) (s : State)
      → IsUnique s.nodes
      → IsUnique (check_node w answer s).1.nodes
  unfolding check_node
  check_node-IsUnique nothing s v = v
  check_node-IsUnique broken s v = v
  check_node-IsUnique (got node) s v = elim (Bool-cases (is_empty node.provider_id)) [
    | inr stamped ↦ rw (stamped, check_node) v
    | inl bare ↦ rw (bare, check_node) (check_label-IsUnique node _ s v)
  ]

-- Whatever a reconcile reads through its caches and however its writes end, it keeps this: among the
-- nodes of one group, at most one carries the group's provider ID.
pub reconcile-IsUnique :
    (w : World) (s : State) → IsUnique s.nodes → IsUnique (reconcile w s).1.nodes
unfolding reconcile
reconcile-IsUnique w s v = check_node-IsUnique w w.node s v
