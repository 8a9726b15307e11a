-- ===== src/Api/Labels.antt =====
-- pkg/apis/v1alpha1/labels.go: which labels of a CleverNodeClass reach a node. The syntax of label
-- keys and values is apimachinery's, a parameter.
pub mod Domains
use karpenter_provider_cleve.Base.{
  Bool, true, false, not, ◌&&◌, ◌||◌, Option, none, some, List, [], ◌∷◌, Text, codes, contains,
  has_prefix, leb, if◌then◌else◌, any, length,
}

-- `validation.IsQualifiedName` and `validation.IsValidLabelValue`: whether they return no error.
pub record LabelSyntax : Type 0 where
  pub is_qualified_name : Text → Bool
  pub is_valid_label_value : Text → Bool

-- `inKubernetesIODomain`
unfoldable pub in_kubernetes_io_domain : Text → Bool
in_kubernetes_io_domain key = contains key (codes "kubernetes.io/")

-- `inKarpenterDomain`
unfoldable pub in_karpenter_domain : Text → Bool
in_karpenter_domain key =
    has_prefix key (codes "karpenter.sh/") || contains key (codes ".karpenter.sh/")

-- The errors of `ValidateNodeClassLabel`, in the order in which it tests for them.
pub data LabelError : Type 0 where
  kubernetes_domain reserved_prefix karpenter_domain invalid_key invalid_value : LabelError

-- `ValidateNodeClassLabel`; `none` is its nil.
unfoldable pub validate_node_class_label : LabelSyntax → Text → Text → Option LabelError
validate_node_class_label syntax key value =
    if in_kubernetes_io_domain key
    then some kubernetes_domain
    else if has_prefix key (codes "clever-cloud.com/")
    then some reserved_prefix
    else if in_karpenter_domain key
    then some karpenter_domain
    else if not (syntax.is_qualified_name key)
    then some invalid_key
    else if not (syntax.is_valid_label_value value)
    then some invalid_value
    else none

-- The loop of `IsLegacyNodeClassLabel` over the prefixes that v0.12.0 refused.
abbrev pub refused_prefixes : List Text
refused_prefixes =
    codes "kubernetes.io/" ∷ codes "node.kubernetes.io/" ∷ codes "clever-cloud.com/" ∷ []

-- `IsLegacyNodeClassLabel`
unfoldable pub is_legacy_node_class_label : Text → Text → Bool
unfolding any
is_legacy_node_class_label key value =
    if not (in_kubernetes_io_domain key) && not (in_karpenter_domain key)
    then false
    else if any (has_prefix key) refused_prefixes
    then false
    else leb (length value) 63

-- The CEL rule on `CleverNodeClassSpec.Labels` (pkg/apis/v1alpha1/clevernodeclass.go), for one key.
unfoldable pub cel_admits : Text → Bool
cel_admits key =
    not (contains key (codes "kubernetes.io/"))
    && not (has_prefix key (codes "clever-cloud.com/"))
    && not (has_prefix key (codes "karpenter.sh/"))
    && not (contains key (codes ".karpenter.sh/"))
