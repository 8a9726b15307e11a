-- ===== src/Provider/Payload.antt =====
-- pkg/providers/nodegroup/nodegroup.go: the NodeGroup that `ResolveAndCreate` posts, and
-- `nodeGroupLabels`.
pub mod Laws
use karpenter_provider_cleve.Base.{
  Bool, Option, none, some, List, [], ◌∷◌, Text, codes, Map, lookup, insert, if◌then◌else◌, is_some,
  not,
}
use karpenter_provider_cleve.Api.NodeGroup.{NodeGroup, Taint, OwnerReference}
use karpenter_provider_cleve.Api.NodeClaim.{NodeClaim}
use karpenter_provider_cleve.Api.Labels.{LabelSyntax, validate_node_class_label}
use karpenter_provider_cleve.Api.NodeClass.{
  CleverNodeClass, Hashing, entries, hash, node_class_hash_version,
}
use karpenter_provider_cleve.Provider.Identity.{
  managed_label, node_claim_label, node_claim_kind, value_of,
}

abbrev pub node_pool_label : Text
node_pool_label = codes "karpenter.clever-cloud.com/nodepool"

abbrev pub node_class_label : Text
node_class_label = codes "karpenter.clever-cloud.com/nodeclass"

abbrev pub node_class_hash_key : Text
node_class_hash_key = codes "karpenter.clever-cloud.com/clevernodeclass-hash"

abbrev pub node_class_hash_version_key : Text
node_class_hash_version_key = codes "karpenter.clever-cloud.com/clevernodeclass-hash-version"

-- karpenter-core's label of a NodeClaim's pool, and its taint of unregistered nodes
abbrev pub core_node_pool_label : Text
core_node_pool_label = codes "karpenter.sh/nodepool"

abbrev pub unregistered_taint : Text
unregistered_taint = codes "karpenter.sh/unregistered"

-- `isNodeGroupLabelAllowed`
unfoldable pub is_node_group_label_allowed : LabelSyntax → Text → Text → Bool
is_node_group_label_allowed syntax key value =
    not (is_some (validate_node_class_label syntax key value))

-- One of the two loops of `nodeGroupLabels`.
unfoldable pub add_allowed : LabelSyntax → Map Text → Map Text → Map Text
unfolding is_node_group_label_allowed
add_allowed syntax [] labels = labels
add_allowed syntax (e ∷ m) labels =
    add_allowed syntax m
      (if is_node_group_label_allowed syntax e.0 e.1 then insert e.0 e.1 labels else labels)

-- `nodeGroupLabels`
unfoldable pub node_group_labels : LabelSyntax → NodeClaim → CleverNodeClass → Map Text
unfolding add_allowed
node_group_labels syntax claim class =
    add_allowed syntax claim.labels (add_allowed syntax (entries class.spec.labels) [])

-- `Launch`; the reader that confirms an adoption is the source of the poll's reads.
pub record Launch : Type 0 where
  pub node_class : CleverNodeClass
  pub flavor : Text
  pub annotations : Map Text
  pub existing : Option NodeGroup

-- The loop over `launch.Annotations`: a key that is there already is reserved.
unfoldable pub add_unreserved : Map Text → Map Text → Map Text
add_unreserved [] annotations = annotations
add_unreserved (e ∷ m) annotations =
    add_unreserved m
      (if is_some (lookup e.0 annotations) then annotations else insert e.0 e.1 annotations)

-- The NodeGroup of the create call. The API server fills in the uid and the creation time.
unfoldable pub build_node_group : Hashing → LabelSyntax → NodeClaim → Launch → NodeGroup
unfolding add_unreserved node_group_labels
build_node_group hash_of syntax claim launch = record {
  name = claim.name;
  uid = [];
  labels =
      (managed_label, codes "true")
      ∷ (node_claim_label, claim.name)
      ∷ (node_pool_label, value_of claim.labels core_node_pool_label)
      ∷ (node_class_label, launch.node_class.name)
      ∷ [];
  annotations = add_unreserved launch.annotations (
      (node_class_hash_key, hash hash_of syntax launch.node_class.spec)
      ∷ (node_class_hash_version_key, node_class_hash_version)
      ∷ []);
  owners =
      record {
        api_version = codes "karpenter.sh/v1";
        kind = node_claim_kind;
        name = claim.name;
        uid = claim.uid;
      }
      ∷ [];
  finalizers = [];
  created = 0;
  deleted = none;
  spec = record {
    flavor = launch.flavor;
    node_count = 1;
    labels = node_group_labels syntax claim launch.node_class;
    taints = record { key = unregistered_taint; value = []; effect = codes "NoExecute" } ∷ [];
  };
  status = record { conditions = []; phase = [] };
}
