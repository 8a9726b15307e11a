-- ===== src/CloudProvider/Launching/Wanted.antt =====
-- What holds of every launch that `Create` hands to the NodeGroup provider.
use karpenter_provider_cleve.Base.{
  ◌≡◌, refl, subst, ◌⊎◌, inl, inr, true, Option, none, some, List, [], Text,
}
use karpenter_provider_cleve.Flavor.Numbers.{Doubles, Quantities}
use karpenter_provider_cleve.Flavor.TypeProvider.{TypeProvider, sizing}
use karpenter_provider_cleve.Flavor.TypeProvider.Types.{InstanceType}
use karpenter_provider_cleve.Api.NodeGroup.{NodeGroup}
use karpenter_provider_cleve.Api.NodeClaim.{NodeClaim}
use karpenter_provider_cleve.Api.NodeClass.{CleverNodeClass, Hashing}
use karpenter_provider_cleve.Api.Labels.{LabelSyntax}
use karpenter_provider_cleve.Provider.Identity.{owned_by_node_claim}
use karpenter_provider_cleve.Provider.Backoff.{Backoff}
use karpenter_provider_cleve.Provider.Payload.{Launch}
use karpenter_provider_cleve.Provider.Create.{resolve_and_create}
use karpenter_provider_cleve.Provider.Create as Creation
use karpenter_provider_cleve.Controllers.Reads.{got, nothing}
use karpenter_provider_cleve.CloudProvider.Outcome.{CloudError, Result, done, fails}
use karpenter_provider_cleve.CloudProvider.Snapshot.{disk_snapshot_annotations}
use karpenter_provider_cleve.CloudProvider.Selection.{
  Scheduling, Demand, View, resolve_instance_type,
}
use karpenter_provider_cleve.CloudProvider.Launching.{
  Reads, resolved, unresolved, existing_disk_launch, launch_type, resolve_launch, resolver, finish,
  create,
}
use karpenter_provider_cleve.CloudProvider.Launching.Resolving.{
  check_node_claim_wanted-live, resolve_node_class-ready, existing_disk_launch-owned,
  launch_type-chosen, resolve_launch-done,
}

module _ {Q W R : Type 0} (q : Quantities Q W) (d : Doubles W) (k : Scheduling R Q) where
  -- What the API server said before a launch, and the launch made of it: the claim is still the same
  -- object and not being deleted, its class is ready and not being deleted, and either no group of the
  -- claim's name exists and the type is the one chosen now, or the group is the claim's own and is adopted.
  pub record IsWanted (p : TypeProvider Q W) (v : View) (w : Reads Q) (claim : NodeClaim)
      (demand : Demand R Q) (l : Launch) (it : InstanceType Q W) : Type 0 where
    pub wanted :
        (live : NodeClaim) × (w.claim ≡ got live) × (live.uid ≡ claim.uid) × (live.deleted ≡ none)
    pub classed :
        (w.class ≡ got l.node_class) × (l.node_class.ready ≡ true) × (l.node_class.deleted ≡ none)
    pub grouped :
        ((w.group ≡ nothing)
          × (l.existing ≡ none)
          × (resolve_instance_type q d k p v w.node_pool demand ≡ done it))
        ⊎ ((ng : NodeGroup) × (w.group ≡ got ng)
            × (l.existing ≡ some ng)
            × (owned_by_node_claim ng claim ≡ true))
    pub described : (l.flavor ≡ it.name) × (l.annotations ≡ disk_snapshot_annotations q d it)

  resolver-IsWanted :
      (p : TypeProvider Q W) (v : View) (w : Reads Q) (claim : NodeClaim) (demand : Demand R Q)
      (warned : List Text)
      → ((e : CloudError) × ((resolver q d k p v w claim demand warned).0 ≡ unresolved e))
        ⊎ ((l : Launch) × (it : InstanceType Q W) × ((resolver q d k p v w claim demand warned).0
              ≡ resolved l it)
            × IsWanted p v w claim demand l it)
  unfolding resolver
  resolver-IsWanted p v w claim demand warned =
      of_existing (existing_disk_launch q d k claim w.group) refl
    where
      Goal : Type 0
      Goal =
          ((e : CloudError) × ((resolver q d k p v w claim demand warned).0 ≡ unresolved e))
          ⊎ ((l : Launch) × (it : InstanceType Q W) × ((resolver q d k p v w claim demand warned).0
                ≡ resolved l it)
              × IsWanted p v w claim demand l it)

      grouped_by :
          (existing : Option NodeGroup)
          → existing_disk_launch q d k claim w.group ≡ done existing
          → (it : InstanceType Q W) → (launch_type q d k p v w demand existing warned).0 ≡ done it
          → ((w.group ≡ nothing)
              × (existing ≡ none)
              × (resolve_instance_type q d k p v w.node_pool demand ≡ done it))
            ⊎ ((ng : NodeGroup) × (w.group ≡ got ng)
                × (existing ≡ some ng)
                × (owned_by_node_claim ng claim ≡ true))
      grouped_by existing e it t =
          elim (existing_disk_launch-owned q d k claim w.group existing e) [
            | inr x ↦ inr x
            | inl (a, b) ↦
                let now = subst (λ z. (launch_type q d k p v w demand z warned).0 ≡ done it) b t in
                inl (a, b, launch_type-chosen q d k p v w demand warned it now)
          ]

      of_launch :
          (existing : Option NodeGroup)
          → existing_disk_launch q d k claim w.group ≡ done existing
          → (r : Result (CleverNodeClass × InstanceType Q W))
          → (resolve_launch q d k p v w claim demand existing warned).0 ≡ r
          → Goal
      of_launch existing e (fails error) h = inl (error, simp (e, h, resolver) refl)
      of_launch existing e (done (class, it)) h =
          let (c, f, t) =
            resolve_launch-done q d k p v w claim demand existing warned (done (class, it)) class it
              h refl in
          inr (
            record {
              node_class = class;
              flavor = it.name;
              annotations = disk_snapshot_annotations q d it;
              existing = existing;
            },
            it,
            simp (e, h, resolver) refl,
            record {
              wanted = check_node_claim_wanted-live claim w.claim c;
              classed = resolve_node_class-ready w.class class f;
              grouped = grouped_by existing e it t;
              described = (refl, refl);
            },
          )

      of_existing :
          (r : Result (Option NodeGroup)) → existing_disk_launch q d k claim w.group ≡ r → Goal
      of_existing (fails error) e = inl (error, simp (e, resolver) refl)
      of_existing (done existing) e =
          of_launch existing e (resolve_launch q d k p v w claim demand existing warned).0 refl

  -- `Create` either fails before anything is created, with the provider's state as it was, or hands a
  -- launch to the provider; and then the claim was still wanted, the class ready, and the group absent or
  -- the claim's own, at the reads made under the creation lock.
  pub create-IsWanted :
      (hash_of : Hashing) (syntax : LabelSyntax) (world : Creation.World)
      (p after : TypeProvider Q W) (v : View) (w : Reads Q) (claim : NodeClaim)
      (demand : Demand R Q) (warned : List Text) (b : Backoff)
      → ((e : CloudError) × (create q d k hash_of syntax world p after v w claim demand warned b
            ≡ record {
              result = fails e;
              warned = (resolver q d k p v w claim demand warned).1;
              backoff = b;
              effects = [];
            }))
        ⊎ ((l : Launch) × (it : InstanceType Q W) × IsWanted p v w claim demand l it
            × (create q d k hash_of syntax world p after v w claim demand warned b
                ≡ finish q d k after it
                    (resolver q d k p v w claim demand warned).1
                    (resolve_and_create (sizing q d p) claim hash_of syntax world l b)))
  unfolding create
  create-IsWanted hash_of syntax world p after v w claim demand warned b =
      elim (resolver-IsWanted p v w claim demand warned) [
        | inl (e, h) ↦ inl (e, rw (create, h) refl)
        | inr (l, it, h, wanted) ↦ inr (l, it, wanted, rw (create, h) refl)
      ]
