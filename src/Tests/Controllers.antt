-- ===== src/Tests/Controllers.antt =====
-- The controllers' theorems on concrete inputs.
use karpenter_provider_cleve.Api.Labels.{
  validate_node_class_label, in_kubernetes_io_domain, in_karpenter_domain,
}
use karpenter_provider_cleve.Base.{
  contains, ◌≡◌, refl, sym, ap, ◌∙◌, ◌⊎◌, ◌↔◌, inl, inr, true, some, [], ◌∷◌, codes, text_eq, arith,
  IsIn, map, is_some, lookup, any, has_prefix,
}
use karpenter_provider_cleve.Api.NodeGroup
use karpenter_provider_cleve.Api.NodeGroup.{NodeGroup}
use karpenter_provider_cleve.Api.NodeClass.{
  sets_only, previous_node_class_hashes, normalised, hash_matches,
}
use karpenter_provider_cleve.Provider.Identity.{
  value_of, is_managed, node_claim_owners, owner_names, provider_id,
}
use karpenter_provider_cleve.Provider.Backoff.{new_backoff}
use karpenter_provider_cleve.Provider.Effects.{deletes, deletes_claim}
use karpenter_provider_cleve.Provider.Delete.{accepted, record_late_refusal}
use karpenter_provider_cleve.Controllers.Reads.{got}
use karpenter_provider_cleve.Controllers.GarbageCollection
use karpenter_provider_cleve.Controllers.GarbageCollection.Orphans.{IsOrphan}
use karpenter_provider_cleve.Controllers.GarbageCollection.Reaping.{reconcile_deletes_iff}
use karpenter_provider_cleve.Controllers.GarbageCollection.Vanished.{HasVanished, reap_vanished_iff}
use karpenter_provider_cleve.Controllers.GarbageCollection.Overdue.{HasOverdue, report_overdue_iff}
use karpenter_provider_cleve.Controllers.NodeGroupStatus
use karpenter_provider_cleve.Controllers.NodeGroupStatus.Failing.{FailsWell, reconcile-FailsWell}
use karpenter_provider_cleve.Controllers.ProviderId
use karpenter_provider_cleve.Controllers.ProviderId.Stamps.{IsUnique}
use karpenter_provider_cleve.Controllers.ProviderId.Uniqueness.{reconcile-IsUnique}
use karpenter_provider_cleve.Controllers.HashMigration
use karpenter_provider_cleve.Controllers.HashMigration.Verdicts.{
  drift_verdict, migrate_hash_version-verdicts,
}
use karpenter_provider_cleve.Controllers.HashMigration.Pending.{
  IsSettled, migrated, migrate_hash_version-IsSettled,
}
use karpenter_provider_cleve.Controllers.Finalization
use karpenter_provider_cleve.Controllers.Finalization.Conditions.{
  IsTolerated, finalize_iff, validate_iff,
}
use karpenter_provider_cleve.Api.NodeClass.{CleverNodeClass, entries}
use karpenter_provider_cleve.Base.{All, false, List, none, Text}
use karpenter_provider_cleve.Api.NodeClaim.{NodeClaim}
use karpenter_provider_cleve.Tests.Fixtures.{
  catalogue, claim, group_with, ready_condition, refused_condition, syntax, hashing, class,
}

abbrev orphan : NodeGroup
orphan = group_with (ready_condition ∷ [])

-- A sweep that finds one group, ten minutes old, and no claim.
abbrev sweep_world : GarbageCollection.World
sweep_world = record {
  groups = some (orphan ∷ []);
  overdue_now = 600_000_000_000;
  claims = some [];
  all_groups = some (orphan ∷ []);
  claim_now = λ _. 600_000_000_000;
  group_presence = λ _. GarbageCollection.missing;
  claim_delete = λ _. accepted;
  group_now = λ _. 600_000_000_000;
  claim_presence = λ _ _. GarbageCollection.missing;
  group_delete = λ _. accepted;
  delete_calls = λ _. [];
}

abbrev idle : GarbageCollection.Sweep
idle = record {
  warned = [];
  deletion_warned = [];
  refused_gauge = 0;
  resized_gauge = 0;
  overdue_gauge = 0;
  backoff = new_backoff;
  effects = [];
  errors = [];
}

reconcile_deletes_iff_example :
    IsIn (deletes (codes "c1")) (GarbageCollection.reconcile catalogue sweep_world idle).effects ↔ (
      (ng : NodeGroup) × IsIn ng (orphan ∷ [])
      × (is_managed ng ≡ true)
      × (ng.name ≡ codes "c1")
      × IsOrphan sweep_world [] ng)
reconcile_deletes_iff_example =
    reconcile_deletes_iff catalogue sweep_world idle (codes "c1") (orphan ∷ []) [] refl refl

reap_vanished_iff_example :
    IsIn
      (deletes_claim (codes "c1"))
      (GarbageCollection.reap_vanished_node_claims sweep_world (claim ∷ []) (some []) idle).effects
    ↔ (IsIn (deletes_claim (codes "c1")) [] ⊎ HasVanished sweep_world [] (codes "c1") (claim ∷ []))
reap_vanished_iff_example = reap_vanished_iff sweep_world [] (codes "c1") (claim ∷ []) idle

report_overdue_iff_example :
    (is_some (
        lookup
          (codes "c1")
          (GarbageCollection.report_overdue_deletions 600_000_000_000
            (record orphan { deleted = some 5 } ∷ [])
            idle).deletion_warned)
      ≡ true)
    ↔ HasOverdue 600_000_000_000 (codes "c1") (record orphan { deleted = some 5 } ∷ [])
report_overdue_iff_example =
    report_overdue_iff 600_000_000_000 (codes "c1") (record orphan { deleted = some 5 } ∷ []) idle

abbrev lost : NodeGroup
lost = group_with (refused_condition ∷ [])

abbrev refusal_world : NodeGroupStatus.World
refusal_world = record {
  cached_group = got lost;
  cached_claim = got claim;
  group = got lost;
  claim = got claim;
  reply = NodeGroupStatus.deleted;
  age_now = 7;
  record_now = 8;
}

abbrev following : NodeGroupStatus.Follow
following = record { overdue = []; logged = []; gauge = 0; backoff = new_backoff; effects = [] }

reconcile-FailsWell_example :
    FailsWell catalogue refusal_world
      (codes "c1")
      9
      (omega arith)
      (NodeGroupStatus.reconcile catalogue refusal_world (codes "c1") following)
unfolding NodeGroupStatus.reconcile NodeGroupStatus.is_followed is_managed text_eq value_of lookup
    any node_claim_owners owner_names has_prefix NodeGroupStatus.is_launched_for
    GarbageCollection.is_clever_class provider_id NodeGroup.is_synced NodeGroup.condition_holds
    NodeGroup.get_condition NodeGroup.find_condition NodeGroup.is_quota_exceeded
    NodeGroup.is_refused NodeGroup.is_transient NodeGroup.reconcile_failed NodeGroup.refusal
    NodeGroupStatus.delete_claim NodeGroupStatus.fail_confirmed NodeGroupStatus.fail_launch
    record_late_refusal
reconcile-FailsWell_example =
    reconcile-FailsWell catalogue refusal_world (codes "c1") 9 (omega arith) (codes "c1") following
      (inl refl)

abbrev bare : ProviderId.Node
bare = record {
  name = codes "c1-node0";
  provider_id = [];
  labels = (ProviderId.node_group_node_label, codes "c1") ∷ [];
}

abbrev stamping : ProviderId.World
stamping = record { node = got bare; group = got orphan; lists = true; patch = ProviderId.patched }

abbrev one_node : ProviderId.State
one_node = record { nodes = bare ∷ []; warned_resized = []; warned_stripped = [] }

one_node-IsUnique : IsUnique (bare ∷ [])
one_node-IsUnique = record {
  unique = λ group a b i j p q. elim i [
    | inl e ↦ elim j [
      | inl f ↦ ap (λ (z : ProviderId.Node). z.name) (sym e ∙ f)
      | inr k ↦ elim k [ ]
    ]
    | inr k ↦ elim k [ ]
  ];
}

reconcile-IsUnique_example : IsUnique (ProviderId.reconcile stamping one_node).1.nodes
reconcile-IsUnique_example = reconcile-IsUnique stamping one_node one_node-IsUnique

abbrev migration : HashMigration.World
migration = record { lists = true; claim = λ _. got claim; patch = λ _. ProviderId.patched }

-- A group of the class with a stamp of the first generation.
abbrev stamped : NodeGroup
stamped = record orphan {
  labels =
      (codes "karpenter.clever-cloud.com/managed", codes "true")
      ∷ (codes "karpenter.clever-cloud.com/nodeclass", codes "k")
      ∷ [];
  annotations = (codes "karpenter.clever-cloud.com/clevernodeclass-hash", codes "h") ∷ [];
}

migrate_hash_version-verdicts_example :
    map
      (drift_verdict hashing syntax class.spec)
      (HashMigration.migrate_hash_version hashing syntax class migration (stamped ∷ [])).groups
    ≡ map (drift_verdict hashing syntax class.spec) (stamped ∷ [])
migrate_hash_version-verdicts_example =
    migrate_hash_version-verdicts hashing syntax class migration (stamped ∷ [])

migrate_hash_version-IsSettled_example :
    IsIn
      (migrated hashing syntax class migration stamped)
      (HashMigration.migrate_hash_version hashing syntax class migration (stamped ∷ [])).groups
    × IsSettled hashing syntax class.spec (migrated hashing syntax class migration stamped)
unfolding HashMigration.migrate_hash_version HashMigration.is_selected is_managed text_eq value_of
    lookup hash_matches previous_node_class_hashes sets_only normalised validate_node_class_label
    in_kubernetes_io_domain contains in_karpenter_domain
migrate_hash_version-IsSettled_example =
    migrate_hash_version-IsSettled hashing syntax class migration (stamped ∷ []) stamped refl
      (inl refl) refl (λ e. cc)

abbrev going : CleverNodeClass
going = record class { deleted = some 5; finalizers = Finalization.termination_finalizer ∷ [] }

finalize_iff_example :
    (any
        (text_eq Finalization.termination_finalizer)
        (Finalization.finalize (some []) ProviderId.patched going).1.finalizers
      ≡ false)
    ↔ ((listed : List NodeClaim) × (some [] ≡ some listed)
        × (any (Finalization.references (codes "k")) listed ≡ false)
        × (ProviderId.patched ≡ ProviderId.patched))
unfolding any text_eq
finalize_iff_example = finalize_iff (some []) ProviderId.patched going refl

validate_iff_example :
    ((Finalization.validate syntax class).error ≡ none)
    ↔ All
        (IsTolerated syntax (entries class.spec.labels))
        (map (λ (e : Text × Text). e.0) (entries class.spec.labels))
validate_iff_example = validate_iff syntax class
