-- ===== src/Controllers/HashMigration.antt =====
-- pkg/controllers/nodeclass/controller.go, `migrateHashVersion`: NodeGroups stamped by an older
-- generation of the NodeClass hash are re-stamped where that is safe. The answers of the API server
-- are an argument; log lines are left out.
pub mod Verdicts
pub mod Pending
use karpenter_provider_cleve.Base.{
  ℕ, ◌+◌, Bool, true, false, not, ◌&&◌, Option, none, some, List, [], ◌∷◌, Text, codes, text_eq,
  Map, lookup, insert, is_empty, if◌then◌else◌, is_some,
}
use karpenter_provider_cleve.Api.NodeGroup.{NodeGroup}
use karpenter_provider_cleve.Api.NodeClaim.{NodeClaim}
use karpenter_provider_cleve.Api.Labels.{LabelSyntax}
use karpenter_provider_cleve.Api.NodeClass.{
  CleverNodeClassSpec, CleverNodeClass, Hashing, hash, hash_matches, node_class_hash_version,
}
use karpenter_provider_cleve.Provider.Identity.{is_managed, value_of}
use karpenter_provider_cleve.Provider.Payload.{
  node_class_label, node_class_hash_key, node_class_hash_version_key,
}
use karpenter_provider_cleve.Controllers.Reads.{Answer, got, nothing, broken}
use karpenter_provider_cleve.Controllers.GarbageCollection.{claim_name_of}
use karpenter_provider_cleve.Controllers.ProviderId.{Patch, patched, gone, refused}

-- The answers, by the name of the claim or of the group asked about.
pub record World : Type 0 where
  pub lists : Bool
  pub claim : Text → Answer NodeClaim
  pub patch : Text → Patch

-- What the loop's body leaves of one group: the group, and whether it counts as pending or as an error.
pub record Step : Type 0 where
  pub group : NodeGroup
  pub pending : ℕ
  pub errors : ℕ

-- The result of a migration; a `pending` of `none` is `pendingUnknown`.
pub record Migrated : Type 0 where
  pub groups : List NodeGroup
  pub pending : Option ℕ
  pub errors : ℕ

-- `nodeClaimDrifted`; `broken` is its error.
unfoldable pub node_claim_drifted : Answer NodeClaim → Answer Bool
node_claim_drifted nothing = got false
node_claim_drifted broken = broken
node_claim_drifted (got claim) = got claim.drifted

module _ (hash_of : Hashing) (syntax : LabelSyntax) (spec : CleverNodeClassSpec) where
  -- The group with today's stamp.
  unfoldable pub restamped : NodeGroup → NodeGroup
  restamped ng = record ng {
    annotations =
        insert node_class_hash_version_key node_class_hash_version
          (insert node_class_hash_key (hash hash_of syntax spec) ng.annotations);
  }

  -- The patch.
  unfoldable pub restamp : Patch → NodeGroup → Step
  unfolding restamped
  restamp patched ng = record { group = restamped ng; pending = 0; errors = 0 }
  restamp gone ng = record { group = ng; pending = 0; errors = 0 }
  restamp refused ng = record { group = ng; pending = 1; errors = 1 }

  -- What the claim's condition leads to, for a stamp that still describes the spec.
  unfoldable pub restamp_unless_drifted : Patch → Answer Bool → NodeGroup → Step
  unfolding restamp
  restamp_unless_drifted reply nothing ng = record { group = ng; pending = 1; errors = 1 }
  restamp_unless_drifted reply broken ng = record { group = ng; pending = 1; errors = 1 }
  restamp_unless_drifted reply (got true) ng = record { group = ng; pending = 1; errors = 0 }
  restamp_unless_drifted reply (got false) ng = restamp reply ng

  -- What `HashMatches` leads to.
  unfoldable pub judge_stamp : World → Option Bool → NodeGroup → Step
  unfolding restamp_unless_drifted node_claim_drifted
  judge_stamp w none ng = record { group = ng; pending = 0; errors = 0 }
  judge_stamp w (some false) ng = record { group = ng; pending = 1; errors = 0 }
  judge_stamp w (some true) ng =
      restamp_unless_drifted (w.patch ng.name) (node_claim_drifted (w.claim (claim_name_of ng))) ng

  -- What the stamp's presence leads to.
  unfoldable pub migrate_stamp : World → Option Text → NodeGroup → Step
  unfolding judge_stamp
  migrate_stamp w none ng = record { group = ng; pending = 0; errors = 0 }
  migrate_stamp w (some stamp) ng =
      judge_stamp w
        (hash_matches hash_of syntax spec (value_of ng.annotations node_class_hash_version_key)
          stamp)
        ng

  -- The body of the loop.
  unfoldable pub migrate_group : World → NodeGroup → Step
  unfolding migrate_stamp
  migrate_group w ng =
      if text_eq (value_of ng.annotations node_class_hash_version_key) node_class_hash_version
      then record { group = ng; pending = 0; errors = 0 }
      else migrate_stamp w (lookup node_class_hash_key ng.annotations) ng

-- The label selector of the list.
unfoldable pub is_selected : CleverNodeClass → NodeGroup → Bool
is_selected class ng = is_managed ng && elim (lookup node_class_label ng.labels) [
  | none ↦ false
  | some name ↦ text_eq name class.name
]

unfoldable pub migrate_groups :
    Hashing → LabelSyntax → CleverNodeClass → World → List NodeGroup → Migrated
unfolding migrate_group
migrate_groups hash_of syntax class w [] = record { groups = []; pending = some 0; errors = 0 }
migrate_groups hash_of syntax class w (ng ∷ groups) =
    let rest = migrate_groups hash_of syntax class w groups in
    let one = migrate_group hash_of syntax class.spec w ng in
    if is_selected class ng
    then record {
      groups = one.group ∷ rest.groups;
      pending = elim rest.pending [ none ↦ none | some n ↦ some (one.pending + n) ];
      errors = one.errors + rest.errors;
    }
    else record { groups = ng ∷ rest.groups; pending = rest.pending; errors = rest.errors }

-- `migrateHashVersion`, on the NodeGroups of the cluster
unfoldable pub migrate_hash_version :
    Hashing → LabelSyntax → CleverNodeClass → World → List NodeGroup → Migrated
unfolding migrate_groups
migrate_hash_version hash_of syntax class w groups =
    if w.lists
    then migrate_groups hash_of syntax class w groups
    else record { groups = groups; pending = none; errors = 1 }
