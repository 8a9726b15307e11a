-- ===== src/Provider/Identity/Ownership.antt =====
-- What `OwnedByNodeClaim` proves of a NodeGroup, and how it compares with the weaker readings.
use karpenter_provider_cleve.Base.{
  ◌≡◌, true, List, [], ◌∷◌, Text, text_eq_iff, arith, any, IsIn, codes, has_prefix,
}
use karpenter_provider_cleve.Api.NodeGroup.{NodeGroup, OwnerReference}
use karpenter_provider_cleve.Api.NodeClaim.{NodeClaim}
use karpenter_provider_cleve.Provider.Identity.{
  is_managed, node_claim_owners, owner_names, is_reference_to, owned_by_node_claim,
  node_claim_label, value_of,
}

prefix_of_v1 :
    (version : Text)
    → version ≡ codes "karpenter.sh/v1"
    → has_prefix version (codes "karpenter.sh/") ≡ true
unfolding has_prefix
prefix_of_v1 version h = ground arith

-- Among the owner references one is to the claim: then the claim's name is among the owners' names.
any-owner_names :
    (claim : NodeClaim) (refs : List OwnerReference)
    → any (is_reference_to claim) refs ≡ true
    → IsIn claim.name (owner_names refs)
unfolding any owner_names is_reference_to
any-owner_names claim [] h = ground arith
any-owner_names claim (ref ∷ refs) h = ground (
  arith,
  any-owner_names claim refs,
  text_eq_iff ref.api_version (codes "karpenter.sh/v1"),
  text_eq_iff ref.name claim.name,
  prefix_of_v1 ref.api_version,
)

-- A group that passes as the claim's own is managed, carries the claim's name as its name and in its
-- label, and names the claim among its owners.
pub owned_by_node_claim-owners :
    (ng : NodeGroup) (claim : NodeClaim)
    → owned_by_node_claim ng claim ≡ true
    → (is_managed ng ≡ true)
      × (ng.name ≡ claim.name)
      × (value_of ng.labels node_claim_label ≡ claim.name)
      × IsIn claim.name (node_claim_owners ng)
unfolding owned_by_node_claim node_claim_owners
owned_by_node_claim-owners ng claim h = ground (
  arith,
  any-owner_names claim ng.owners,
  text_eq_iff ng.name claim.name,
  text_eq_iff (value_of ng.labels node_claim_label) claim.name,
)
