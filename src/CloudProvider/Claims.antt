-- ===== src/CloudProvider/Claims.antt =====
-- pkg/cloudprovider/cloudprovider.go: the NodeClaims that describe the NodeGroups, and their deletion and
-- drift. The log is not modelled; whether a flavor was named in it is.
pub mod Described
use karpenter_provider_cleve.Base.{
  ℕ, Bool, true, false, not, ◌&&◌, Option, none, some, List, [], ◌∷◌, Text, text_eq, Map, lookup,
  insert, any, is_some, if◌then◌else◌,
}
use karpenter_provider_cleve.Flavor.Numbers.{Doubles, ResourceList, Quantities}
use karpenter_provider_cleve.Flavor.Reports.{set_disk}
use karpenter_provider_cleve.Flavor.TypeProvider.{DiskProfile, TypeProvider, sizing}
use karpenter_provider_cleve.Flavor.TypeProvider.Types.{InstanceType, Requirement, get, synthesize}
use karpenter_provider_cleve.Api.NodeGroup.{NodeGroup}
use karpenter_provider_cleve.Api.NodeClass.{CleverNodeClass, Hashing}
use karpenter_provider_cleve.Api.Labels.{LabelSyntax}
use karpenter_provider_cleve.Provider.Identity.{provider_id, parse_provider_id, is_managed}
use karpenter_provider_cleve.Provider.Payload.{node_pool_label, core_node_pool_label}
use karpenter_provider_cleve.Provider.Backoff.{Backoff}
use karpenter_provider_cleve.Provider.Backoff.Marks.{Call}
use karpenter_provider_cleve.Provider.Delete.{DeleteReply, accepted, absent, rejected, delete}
use karpenter_provider_cleve.Controllers.Reads.{Answer, got, nothing, broken}
use karpenter_provider_cleve.Controllers.NodeGroupStatus.{without, with_name}
use karpenter_provider_cleve.Controllers.GarbageCollection.{list_managed}
use karpenter_provider_cleve.Controllers.HashMigration.Verdicts.{drift_verdict}
use karpenter_provider_cleve.CloudProvider.Outcome.{
  Reason, CloudError, node_claim_not_found, plain, group_missing, group_unread, group_unmanaged,
  group_terminating, bad_provider_id, delete_failed, Result, done, fails,
}
use karpenter_provider_cleve.CloudProvider.Snapshot.{
  allocatable, read_disk_snapshot, Snapshot, no_snapshot, invalid, snapshot,
}

-- The claim that `buildNodeClaim` returns.
pub record BuiltClaim (Q : Type 0) : Type 0 where
  pub name : Text
  pub labels : Map Text
  pub created : ℕ
  pub provider_id : Text
  pub capacity : ResourceList Q
  pub allocatable : ResourceList Q

-- The labels of requirements, each of one value.
unfoldable pub add_requirements : List Requirement → Map Text → Map Text
add_requirements [] labels = labels
add_requirements ((key, value) ∷ requirements) labels =
    add_requirements requirements (insert key value labels)

module _ {Q W : Type 0} (q : Quantities Q W) (d : Doubles W) where
  -- `resolveNodeGroupInstanceType` on the flavor, with `warnedFlavors`
  unfoldable pub resolve_node_group_instance_type :
      TypeProvider Q W → Text → List Text → InstanceType Q W × List Text
  unfolding get synthesize
  resolve_node_group_instance_type p flavor warned = elim (get q d p flavor) [
    | some it ↦ (it, without flavor warned)
    | none ↦ (synthesize q d p flavor, with_name flavor warned)
  ]

  -- The labels of `buildNodeClaim`.
  unfoldable pub claim_labels : NodeGroup → InstanceType Q W → Map Text
  unfolding add_requirements
  claim_labels ng it =
      let of_type = add_requirements it.requirements [] in
      let of_offering =
        if it.is_available then add_requirements it.offering_requirements of_type else of_type in
      elim (lookup node_pool_label ng.labels) [
        | none ↦ of_offering
        | some pool ↦ insert core_node_pool_label pool of_offering
      ]

  -- A list of resources under the group's snapshot, if it has a valid one.
  unfoldable pub with_snapshot : Snapshot Q → (DiskProfile Q → Q) → ResourceList Q → ResourceList Q
  unfolding set_disk
  with_snapshot no_snapshot part list = list
  with_snapshot invalid part list = list
  with_snapshot (snapshot disk) part list = set_disk (part disk) list

  -- `buildNodeClaim`
  unfoldable pub build_node_claim : NodeGroup → InstanceType Q W → BuiltClaim Q
  unfolding claim_labels allocatable read_disk_snapshot with_snapshot provider_id
  build_node_claim ng it =
      let disk = read_disk_snapshot q d ng.annotations in
      record {
        name = ng.name;
        labels = claim_labels ng it;
        created = ng.created;
        provider_id = provider_id ng.name;
        capacity = with_snapshot disk (λ (x : DiskProfile Q). x.capacity) it.capacity;
        allocatable =
            with_snapshot disk (λ (x : DiskProfile Q). x.allocatable) (allocatable q d it);
      }

  -- The claim of a group, and `warnedFlavors` after it.
  unfoldable pub describe : TypeProvider Q W → NodeGroup → List Text → BuiltClaim Q × List Text
  unfolding resolve_node_group_instance_type build_node_claim
  describe p ng warned =
      let resolved = resolve_node_group_instance_type p ng.spec.flavor warned in
      (build_node_claim ng resolved.0, resolved.1)

  -- `Get`; the argument is the answer to the read of the group of a name.
  unfoldable pub get_claim :
      TypeProvider Q W
      → (Text → Answer NodeGroup)
      → Text
      → List Text
      → Result (BuiltClaim Q) × List Text
  unfolding describe parse_provider_id is_managed
  get_claim p group id warned = elim (parse_provider_id id) [
    | none ↦ (fails (plain bad_provider_id), warned)
    | some name ↦ elim (group name) [
      | nothing ↦ (fails (node_claim_not_found group_missing), warned)
      | broken ↦ (fails (plain group_unread), warned)
      | got ng ↦
          if not (is_managed ng)
          then (fails (node_claim_not_found group_unmanaged), warned)
          else if is_some ng.deleted
          then (fails (node_claim_not_found group_terminating), warned)
          else let described = describe p ng warned in (done described.0, described.1)
    ]
  ]

  unfoldable pub describe_all :
      TypeProvider Q W → List NodeGroup → List Text → List (BuiltClaim Q) × List Text
  unfolding describe
  describe_all p [] warned = ([], warned)
  describe_all p (ng ∷ groups) warned =
      let described = describe p ng warned in
      let rest = describe_all p groups described.1 in (described.0 ∷ rest.0, rest.1)

  -- `List`, on the groups that the provider's `List` finds; `none` is its error.
  unfoldable pub list_claims :
      TypeProvider Q W
      → Option (List NodeGroup)
      → List Text
      → Result (List (BuiltClaim Q)) × List Text
  unfolding describe_all list_managed
  list_claims p none warned = (fails (plain group_unread), warned)
  list_claims p (some groups) warned =
      let described = describe_all p (list_managed groups) warned in (done described.0, described.1)

  -- The name of `Delete`'s group: the provider ID's, or else the claim's.
  unfoldable pub group_name : Text → Text → Text
  unfolding parse_provider_id
  group_name id claim = elim (parse_provider_id id) [ none ↦ claim | some name ↦ name ]

  -- What `Delete` leaves: its error, the state under the provider's `mu`, and whether a DELETE was sent.
  pub record Deleted : Type 0 where
    pub error : Option CloudError
    pub backoff : Backoff
    pub sent : Option Text

  unfoldable pub delete_error : DeleteReply → Option CloudError
  delete_error accepted = none
  delete_error absent = some (node_claim_not_found group_missing)
  delete_error (rejected message) = some (plain delete_failed)

  -- `Delete`
  unfoldable pub delete_claim :
      TypeProvider Q W
      → (Text → Answer NodeGroup)
      → List Call
      → DeleteReply
      → Text
      → Text
      → Backoff
      → Deleted
  unfolding group_name is_managed delete delete_error sizing
  delete_claim p group calls reply id claim b = elim (group (group_name id claim)) [
    | nothing ↦ record {
      error = some (node_claim_not_found group_missing);
      backoff = b;
      sent = none;
    }
    | broken ↦ record { error = some (plain group_unread); backoff = b; sent = none }
    | got ng ↦
        if not (is_managed ng)
        then record { error = some (plain group_unmanaged); backoff = b; sent = none }
        else if is_some ng.deleted
        then record { error = none; backoff = b; sent = none }
        else record {
          error = delete_error reply;
          backoff = delete (sizing q d p) ng calls reply b;
          sent = some ng.name;
        }
  ]

-- What `IsDrifted` returns: an error, or whether the reason is NodeClassDrifted.
unfoldable pub is_drifted :
    Hashing
    → LabelSyntax
    → (Text → Answer NodeGroup)
    → (Text → Answer CleverNodeClass)
    → Text
    → Text
    → Option Bool
unfolding parse_provider_id drift_verdict
is_drifted hash_of syntax group class id class_name = elim (parse_provider_id id) [
  | none ↦ some false
  | some name ↦ elim (group name) [
    | nothing ↦ some false
    | broken ↦ none
    | got ng ↦ elim (class class_name) [
      | nothing ↦ some false
      | broken ↦ none
      | got c ↦ elim (drift_verdict hash_of syntax c.spec ng) [
        | none ↦ some false
        | some matches ↦ some (not matches)
      ]
    ]
  ]
]
