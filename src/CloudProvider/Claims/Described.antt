-- ===== src/CloudProvider/Claims/Described.antt =====
-- `List` describes every managed group, and `Get` describes each as `List` does.
use karpenter_provider_cleve.Base.{
  ◌≡◌, ◌≢◌, refl, ap, inl, inr, true, none, some, List, [], ◌∷◌, Text, map, Option-cases,
}
use karpenter_provider_cleve.Flavor.Numbers.{Doubles, Quantities}
use karpenter_provider_cleve.Flavor.TypeProvider.{TypeProvider}
use karpenter_provider_cleve.Flavor.TypeProvider.Types.{get}
use karpenter_provider_cleve.Api.NodeGroup.{NodeGroup}
use karpenter_provider_cleve.Provider.Identity.{provider_id, is_managed}
use karpenter_provider_cleve.Provider.Identity.RoundTrip.{parse_provider_id-provider_id}
use karpenter_provider_cleve.Controllers.Reads.{Answer, got}
use karpenter_provider_cleve.Controllers.GarbageCollection.{list_managed}
use karpenter_provider_cleve.CloudProvider.Outcome.{done}
use karpenter_provider_cleve.CloudProvider.Claims.{
  BuiltClaim, resolve_node_group_instance_type, build_node_claim, describe, get_claim, describe_all,
  list_claims,
}

module _ {Q W : Type 0} (q : Quantities Q W) (d : Doubles W) (p : TypeProvider Q W) where
  -- The claim of a group, whatever was logged before.
  abbrev pub claim_of : NodeGroup → BuiltClaim Q
  claim_of ng = (describe q d p ng []).0

  describe-claim_of :
      (ng : NodeGroup) (warned : List Text) → (describe q d p ng warned).0 ≡ claim_of ng
  unfolding describe resolve_node_group_instance_type
  describe-claim_of ng warned = elim (Option-cases (get q d p ng.spec.flavor)) [
    | inl e ↦ simp (e, describe, resolve_node_group_instance_type) refl
    | inr (it, e) ↦ simp (e, describe, resolve_node_group_instance_type) refl
  ]

  describe_all-claim_of :
      (groups : List NodeGroup) (warned : List Text)
      → (describe_all q d p groups warned).0 ≡ map claim_of groups
  unfolding describe_all
  describe_all-claim_of [] warned = refl
  describe_all-claim_of (ng ∷ groups) warned =
      rw (describe-claim_of ng warned, describe_all-claim_of groups (describe q d p ng warned).1)
        refl

  -- Once the groups are listed, `List` does not fail: it describes every managed group, one whose
  -- flavor left the catalogue too, each under its own provider ID; and `Get` of that provider ID
  -- describes a managed group, of a name that is not empty and not being deleted, as `List` does,
  -- whatever was logged before.
  pub list_claims-get_claim :
      (groups : List NodeGroup) (warned : List Text)
      → ((list_claims q d p (some groups) warned).0 ≡ done (map claim_of (list_managed groups)))
        × ((ng : NodeGroup) → (claim_of ng).provider_id ≡ provider_id ng.name)
        × ((ng : NodeGroup) (group : Text → Answer NodeGroup) (warned' : List Text)
            → ng.name ≢ []
            → group ng.name ≡ got ng
            → is_managed ng ≡ true
            → ng.deleted ≡ none
            → (get_claim q d p group (provider_id ng.name) warned').0 ≡ done (claim_of ng))
  unfolding list_claims get_claim describe build_node_claim
  list_claims-get_claim groups warned = (
    ap done (describe_all-claim_of (list_managed groups) warned),
    λ ng. refl,
    λ ng group warned' n g m e.
        simp (parse_provider_id-provider_id ng.name n, g, m, e, get_claim)
          (ap done (describe-claim_of ng warned')),
  )
