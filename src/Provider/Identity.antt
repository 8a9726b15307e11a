-- ===== src/Provider/Identity.antt =====
-- pkg/providers/nodegroup/nodegroup.go: which NodeGroup a provider ID or a node belongs to, and which
-- NodeClaim a NodeGroup belongs to.
pub mod RoundTrip
pub mod Ownership
use karpenter_provider_cleve.Base.{
  ℕ, Bool, true, false, ◌&&◌, ◌||◌, not, Option, none, some, List, [], ◌∷◌, ◌++◌, Text, codes,
  text_eq, leb, Map, lookup, cut_prefix, has_prefix, trim_prefix, if◌then◌else◌, is_empty, any,
}
use karpenter_provider_cleve.Api.NodeGroup.{NodeGroup, OwnerReference}
use karpenter_provider_cleve.Api.NodeClaim.{NodeClaim}

abbrev pub provider_id_prefix : Text
provider_id_prefix = codes "clevercloud://"

-- `ProviderID`
unfoldable pub provider_id : Text → Text
provider_id name = provider_id_prefix ++ name

-- `ParseProviderID`; `none` is its error.
unfoldable pub parse_provider_id : Text → Option Text
parse_provider_id id =
    let name = trim_prefix id provider_id_prefix in
    if text_eq name id || is_empty name then none else some name

abbrev pub node_name_infix : Text
node_name_infix = codes "-node"

unfoldable pub is_digit : ℕ → Bool
is_digit c = leb b'0' c && leb c b'9'

-- `strings.Trim(s, "0123456789") == ""`
unfoldable pub all_digits : Text → Bool
unfolding is_digit
all_digits [] = true
all_digits (c ∷ s) = is_digit c && all_digits s

-- What stands before and after the last occurrence of `sep`, as `strings.LastIndex` finds it.
unfoldable pub cut_last : Text → Text → Option (Text × Text)
cut_last [] sep = elim (cut_prefix [] sep) [ none ↦ none | some rest ↦ some ([], rest) ]
cut_last (c ∷ s) sep = elim (cut_last s sep) [
  | some (before, after) ↦ some (c ∷ before, after)
  | none ↦ elim (cut_prefix (c ∷ s) sep) [ none ↦ none | some rest ↦ some ([], rest) ]
]

-- `NodeGroupOfNode`
unfoldable pub node_group_of_node : Text → Option Text
node_group_of_node node_name = elim (cut_last node_name node_name_infix) [
  | none ↦ none
  | some (group, index) ↦
      if is_empty group
      then none
      else if is_empty index || not (all_digits index)
      then none
      else some group
]

abbrev pub managed_label : Text
managed_label = codes "karpenter.clever-cloud.com/managed"

abbrev pub node_claim_label : Text
node_claim_label = codes "karpenter.clever-cloud.com/nodeclaim"

-- `m[k]`, the empty string for a missing key
unfoldable pub value_of : Map Text → Text → Text
value_of m k = elim (lookup k m) [ none ↦ [] | some v ↦ v ]

-- `IsManaged`
unfoldable pub is_managed : NodeGroup → Bool
is_managed ng = text_eq (value_of ng.labels managed_label) (codes "true")

abbrev pub node_claim_kind : Text
node_claim_kind = codes "NodeClaim"

-- `NodeClaimOwners`, over the owner references
unfoldable pub owner_names : List OwnerReference → List Text
owner_names [] = []
owner_names (ref ∷ refs) =
    if text_eq ref.kind node_claim_kind && has_prefix ref.api_version (codes "karpenter.sh/")
    then ref.name ∷ owner_names refs
    else owner_names refs

unfoldable pub node_claim_owners : NodeGroup → List Text
node_claim_owners ng = owner_names ng.owners

-- The owner reference that `OwnedByNodeClaim` looks for.
unfoldable pub is_reference_to : NodeClaim → OwnerReference → Bool
is_reference_to claim owner =
    text_eq owner.api_version (codes "karpenter.sh/v1")
    && text_eq owner.kind node_claim_kind
    && text_eq owner.name claim.name
    && text_eq owner.uid claim.uid

-- `OwnedByNodeClaim`
unfoldable pub owned_by_node_claim : NodeGroup → NodeClaim → Bool
owned_by_node_claim ng claim =
    if not (text_eq ng.name claim.name)
      || not (is_managed ng)
      || not (text_eq (value_of ng.labels node_claim_label) claim.name)
    then false
    else any (is_reference_to claim) ng.owners
