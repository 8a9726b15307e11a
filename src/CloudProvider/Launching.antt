-- ===== src/CloudProvider/Launching.antt =====
-- pkg/cloudprovider/cloudprovider.go: `Create`, which resolves what to launch under the creation lock and
-- hands it to the NodeGroup provider.
pub mod Resolving
pub mod Wanted
use karpenter_provider_cleve.Base.{
  ℕ, Bool, true, false, not, ◌||◌, Option, none, some, List, [], ◌∷◌, Text, text_eq, is_some,
  if◌then◌else◌,
}
use karpenter_provider_cleve.Flavor.Numbers.{Doubles, ResourceList, Quantities}
use karpenter_provider_cleve.Flavor.TypeProvider.{TypeProvider, sizing}
use karpenter_provider_cleve.Flavor.TypeProvider.Types.{InstanceType}
use karpenter_provider_cleve.Api.NodeGroup.{NodeGroup}
use karpenter_provider_cleve.Api.NodeClaim.{NodeClaim}
use karpenter_provider_cleve.Api.NodeClass.{CleverNodeClass, Hashing}
use karpenter_provider_cleve.Api.Labels.{LabelSyntax}
use karpenter_provider_cleve.Provider.Identity.{owned_by_node_claim}
use karpenter_provider_cleve.Provider.Backoff.{Backoff}
use karpenter_provider_cleve.Provider.Effects.{
  Effect, CreateError, quota_exceeded, backed_off, flavor_rejected, vanished, cancelled, not_owned,
  failed,
}
use karpenter_provider_cleve.Provider.Payload.{Launch}
use karpenter_provider_cleve.Provider.Create.{Created, resolve_and_create, CreateResult, launched}
use karpenter_provider_cleve.Provider.Create as Creation
use karpenter_provider_cleve.Controllers.Reads.{Answer, got, nothing, broken}
use karpenter_provider_cleve.CloudProvider.Outcome.{
  Reason, CloudError, insufficient_capacity, node_class_not_ready, node_claim_not_found,
  create_error, plain, claim_missing, claim_unread, claim_replaced, claim_deleting, class_missing,
  class_unread, class_unready, class_terminating, group_unread, group_foreign, bad_snapshot,
  creation, Result, done, fails,
}
use karpenter_provider_cleve.CloudProvider.Snapshot.{
  Snapshot, no_snapshot, invalid, snapshot, read_disk_snapshot, disk_snapshot_annotations,
}
use karpenter_provider_cleve.CloudProvider.Selection.{
  Scheduling, Demand, View, resolve_instance_type,
}
use karpenter_provider_cleve.CloudProvider.Claims.{
  BuiltClaim, resolve_node_group_instance_type, build_node_claim,
}

-- The answers of the API server to the resolver's reads, by name.
pub record Reads (Q : Type 0) : Type 0 where
  pub claim : Answer NodeClaim
  pub class : Answer CleverNodeClass
  pub group : Answer NodeGroup
  pub node_pool : Text → Answer (ResourceList Q)

-- What `resolveLaunch` returns: the class and the type, or an error; with `warnedFlavors`.
pub data Resolved (Q W : Type 0) : Type 0 where
  resolved : Launch → InstanceType Q W → Resolved Q W
  unresolved : CloudError → Resolved Q W

-- What `Create` leaves.
pub record Ended (Q : Type 0) : Type 0 where
  pub result : Result (BuiltClaim Q)
  pub warned : List Text
  pub backoff : Backoff
  pub effects : List Effect

-- `checkNodeClaimWanted`; `none` is no error.
unfoldable pub check_node_claim_wanted : NodeClaim → Answer NodeClaim → Option CloudError
check_node_claim_wanted claim nothing = some (plain claim_missing)
check_node_claim_wanted claim broken = some (plain claim_unread)
check_node_claim_wanted claim (got live) =
    if not (text_eq live.uid claim.uid)
    then some (plain claim_replaced)
    else if is_some live.deleted
    then some (plain claim_deleting)
    else none

-- The class of `resolveLaunch`, or its error.
unfoldable pub resolve_node_class : Answer CleverNodeClass → Result CleverNodeClass
resolve_node_class nothing = fails (insufficient_capacity class_missing)
resolve_node_class broken = fails (plain class_unread)
resolve_node_class (got class) =
    if not class.ready
    then fails (node_class_not_ready class_unready)
    else if is_some class.deleted
    then fails (node_class_not_ready class_terminating)
    else done class

-- An error of `resolveInstanceType`, as `resolveLaunch` returns it.
unfoldable pub of_selection : CloudError → CloudError
of_selection (create_error r) = create_error r
of_selection (plain r) = insufficient_capacity r
of_selection (insufficient_capacity r) = insufficient_capacity r
of_selection (node_class_not_ready r) = insufficient_capacity r
of_selection (node_claim_not_found r) = insufficient_capacity r

-- An error of `ResolveAndCreate`, as `Create` returns it.
unfoldable pub of_creation : CreateError → CloudError
of_creation (quota_exceeded flavor message) =
    insufficient_capacity (creation (quota_exceeded flavor message))
of_creation (backed_off x) = insufficient_capacity (creation (backed_off x))
of_creation (flavor_rejected flavor reason message) =
    insufficient_capacity (creation (flavor_rejected flavor reason message))
of_creation (vanished name) = insufficient_capacity (creation (vanished name))
of_creation cancelled = plain (creation cancelled)
of_creation (not_owned name) = plain (creation (not_owned name))
of_creation (failed message) = plain (creation (failed message))

module _ {Q W R : Type 0} (q : Quantities Q W) (d : Doubles W) (k : Scheduling R Q) where
  -- `existingDiskLaunch`: the claim's group, if there is one
  unfoldable pub existing_disk_launch : NodeClaim → Answer NodeGroup → Result (Option NodeGroup)
  unfolding owned_by_node_claim read_disk_snapshot
  existing_disk_launch claim nothing = done none
  existing_disk_launch claim broken = fails (plain group_unread)
  existing_disk_launch claim (got ng) =
      if not (owned_by_node_claim ng claim)
      then fails (plain group_foreign)
      else elim (read_disk_snapshot q d ng.annotations) [
        | no_snapshot ↦ done (some ng)
        | invalid ↦ fails (plain bad_snapshot)
        | snapshot disk ↦ done (some ng)
      ]

  -- The type that a launch is of: the existing group's, or the cheapest one.
  unfoldable pub launch_type :
      TypeProvider Q W
      → View
      → Reads Q
      → Demand R Q
      → Option NodeGroup
      → List Text
      → Result (InstanceType Q W) × List Text
  unfolding resolve_node_group_instance_type resolve_instance_type of_selection
  launch_type p v w demand (some ng) warned =
      let of_group = resolve_node_group_instance_type q d p ng.spec.flavor warned in
      (done of_group.0, of_group.1)
  launch_type p v w demand none warned = elim (resolve_instance_type q d k p v w.node_pool demand) [
    | done it ↦ (done it, warned)
    | fails error ↦ (fails (of_selection error), warned)
  ]

  -- `resolveLaunch`
  unfoldable pub resolve_launch :
      TypeProvider Q W
      → View
      → Reads Q
      → NodeClaim
      → Demand R Q
      → Option NodeGroup
      → List Text
      → Result (CleverNodeClass × InstanceType Q W) × List Text
  unfolding check_node_claim_wanted resolve_node_class launch_type
  resolve_launch p v w claim demand existing warned =
      let typed = launch_type p v w demand existing warned in
      elim (check_node_claim_wanted claim w.claim) [
        | some error ↦ (fails error, warned)
        | none ↦ elim (resolve_node_class w.class) [
          | fails error ↦ (fails error, warned)
          | done class ↦ elim typed.0 [
            | fails error ↦ (fails error, typed.1)
            | done it ↦ (done (class, it), typed.1)
          ]
        ]
      ]

  -- The resolver that `Create` passes to `ResolveAndCreate`.
  unfoldable pub resolver :
      TypeProvider Q W
      → View
      → Reads Q
      → NodeClaim
      → Demand R Q
      → List Text
      → Resolved Q W × List Text
  unfolding existing_disk_launch resolve_launch disk_snapshot_annotations
  resolver p v w claim demand warned = elim (existing_disk_launch claim w.group) [
    | fails error ↦ (unresolved error, warned)
    | done existing ↦
        let launch = resolve_launch p v w claim demand existing warned in
        elim launch.0 [
          | fails error ↦ (unresolved error, launch.1)
          | done (class, it) ↦ (
            resolved
                (record {
                  node_class = class;
                  flavor = it.name;
                  annotations = disk_snapshot_annotations q d it;
                  existing = existing;
                })
                it,
            launch.1,
          )
        ]
  ]

  -- The type of the machine that exists, which an adoption may find to be of another flavor.
  unfoldable pub actual_type :
      TypeProvider Q W → NodeGroup → InstanceType Q W → List Text → InstanceType Q W × List Text
  unfolding resolve_node_group_instance_type
  actual_type p ng it warned =
      if text_eq ng.spec.flavor it.name
      then (it, warned)
      else resolve_node_group_instance_type q d p ng.spec.flavor warned

  -- What `Create` returns of the group that it launched.
  unfoldable pub describe_launched : NodeGroup → InstanceType Q W → Result (BuiltClaim Q)
  unfolding read_disk_snapshot build_node_claim
  describe_launched ng it = elim (read_disk_snapshot q d ng.annotations) [
    | invalid ↦ fails (plain bad_snapshot)
    | no_snapshot ↦ done (build_node_claim q d ng it)
    | snapshot disk ↦ done (build_node_claim q d ng it)
  ]

  -- What `Create` makes of the result of `ResolveAndCreate`.
  unfoldable pub finish : TypeProvider Q W → InstanceType Q W → List Text → Created → Ended Q
  unfolding actual_type describe_launched of_creation
  finish p it warned c = elim c.result [
    | Creation.fails error ↦ record {
      result = fails (of_creation error);
      warned = warned;
      backoff = c.backoff;
      effects = c.effects;
    }
    | launched ng ↦
        let actual = actual_type p ng it warned in
        record {
          result = describe_launched ng actual.0;
          warned = actual.1;
          backoff = c.backoff;
          effects = c.effects;
        }
  ]

  -- `Create`; `after` is the instance type provider when `ResolveAndCreate` has returned.
  unfoldable pub create :
      Hashing
      → LabelSyntax
      → Creation.World
      → TypeProvider Q W
      → TypeProvider Q W
      → View
      → Reads Q
      → NodeClaim
      → Demand R Q
      → List Text
      → Backoff
      → Ended Q
  unfolding resolver finish resolve_and_create sizing
  create hash_of syntax world p after v w claim demand warned b =
      let launch = resolver p v w claim demand warned in
      elim launch.0 [
        | unresolved error ↦ record {
          result = fails error;
          warned = launch.1;
          backoff = b;
          effects = [];
        }
        | resolved l it ↦
            finish after it launch.1
              (resolve_and_create (sizing q d p) claim hash_of syntax world l b)
      ]
