-- ===== src/Controllers/ProviderId.antt =====
-- pkg/controllers/providerid/controller.go: which Node gets its group's provider ID. The Nodes of the
-- cluster are a list; the Node and the NodeGroup that a reconcile reads through its cache may be
-- stale, and stand for themselves. Log lines are left out.
pub mod Stamps
pub mod Uniqueness
use karpenter_provider_cleve.Base.{
  ℕ, Bool, true, false, not, ◌&&◌, ◌||◌, Option, none, some, List, [], ◌∷◌, Text, codes, text_eq,
  Map, lookup, erase, is_empty, any, if◌then◌else◌, is_some,
}
use karpenter_provider_cleve.Api.NodeGroup.{NodeGroup}
use karpenter_provider_cleve.Provider.Identity.{is_managed, provider_id}
use karpenter_provider_cleve.Provider.Payload.{core_node_pool_label}
use karpenter_provider_cleve.Controllers.Reads.{Answer, got, nothing, broken}
use karpenter_provider_cleve.Controllers.NodeGroupStatus.{without, with_name}

-- corev1.Node (a third-party type), as far as the program reads it
pub record Node : Type 0 where
  pub name : Text
  pub provider_id : Text
  pub labels : Map Text

-- `NodeGroupNodeLabelKey`
abbrev pub node_group_node_label : Text
node_group_node_label = codes "clever-cloud.com/nodegroup"

-- The answer to a patch.
pub data Patch : Type 0 where
  patched gone refused : Patch

pub record World : Type 0 where
  pub node : Answer Node
  pub group : Answer NodeGroup
  pub lists : Bool
  pub patch : Patch

-- The cluster's Nodes, and the controller's `warnedResized` and `warnedStripped`.
pub record State : Type 0 where
  pub nodes : List Node
  pub warned_resized : List Text
  pub warned_stripped : List Text

-- `client.MatchingLabels{NodeGroupNodeLabelKey: group}`
unfoldable pub is_in_group : Text → Node → Bool
is_in_group group node = elim (lookup node_group_node_label node.labels) [
  | none ↦ false
  | some value ↦ text_eq value group
]

-- Another node of the group carries the group's provider ID.
unfoldable pub carries : Text → Text → Node → Bool
carries group name node =
    is_in_group group node
    && not (text_eq node.name name)
    && text_eq node.provider_id (provider_id group)

-- What a merge patch of `spec.providerID` does to the cluster.
unfoldable pub stamp : Text → Text → List Node → List Node
stamp name id [] = []
stamp name id (n ∷ nodes) =
    (if text_eq n.name name then record n { provider_id = id } else n) ∷ stamp name id nodes

-- What a merge patch that removes `karpenter.sh/nodepool` does to the cluster.
unfoldable pub strip : Text → List Node → List Node
strip name [] = []
strip name (n ∷ nodes) =
    (if text_eq n.name name then record n { labels = erase core_node_pool_label n.labels } else n)
    ∷ strip name nodes

-- A reconcile either returns no error or one; `true` is no error.
abbrev pub Reconciled : Type 0
Reconciled = Bool × State

-- `stripNodePoolLabel`
unfoldable pub strip_node_pool_label : Patch → Node → State → Reconciled
unfolding strip
strip_node_pool_label reply node s =
    if not (is_some (lookup core_node_pool_label node.labels)) then (true, s) else elim reply [
      | refused ↦ (false, s)
      | gone ↦ (true, s)
      | patched ↦ (
        true,
        record s {
          nodes = strip node.name s.nodes;
          warned_stripped = with_name node.name s.warned_stripped;
        },
      )
    ]

-- The stamping of a node that no sibling keeps from it.
unfoldable pub stamp_node : Patch → Node → Text → State → Reconciled
unfolding stamp
stamp_node reply node group s =
    let cleared = record s {
      warned_resized = without node.name s.warned_resized;
      warned_stripped = without node.name s.warned_stripped;
    } in
    elim reply [
      | patched ↦ (true, record cleared { nodes = stamp node.name (provider_id group) s.nodes })
      | _ ↦ (false, cleared)
    ]

-- The uniqueness check, on the uncached list.
unfoldable pub stamp_unless_carried : World → Node → Text → State → Reconciled
unfolding stamp_node strip_node_pool_label
stamp_unless_carried w node group s =
    if not w.lists
    then (false, s)
    else if any (carries group node.name) s.nodes
    then strip_node_pool_label w.patch node
        (record s { warned_resized = with_name node.name s.warned_resized })
    else stamp_node w.patch node group s

-- What the cached read of the group leads to.
unfoldable pub check_group : World → Node → Text → Answer NodeGroup → State → Reconciled
unfolding stamp_unless_carried
check_group w node group nothing s = (true, s)
check_group w node group broken s = (false, s)
check_group w node group (got ng) s =
    if is_managed ng then stamp_unless_carried w node group s else (true, s)

-- What the node's label leads to.
unfoldable pub check_label : World → Node → Option Text → State → Reconciled
unfolding check_group
check_label w node none s = (true, s)
check_label w node (some group) s = check_group w node group w.group s

-- What the cached read of the node leads to.
unfoldable pub check_node : World → Answer Node → State → Reconciled
unfolding check_label
check_node w nothing s = (true, s)
check_node w broken s = (false, s)
check_node w (got node) s =
    if not (is_empty node.provider_id)
    then (true, s)
    else check_label w node (lookup node_group_node_label node.labels) s

-- `Reconcile`; reconciles are serialised.
unfoldable pub reconcile : World → State → Reconciled
unfolding check_node
reconcile w s = check_node w w.node s
