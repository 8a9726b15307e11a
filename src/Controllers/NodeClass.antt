-- ===== src/Controllers/NodeClass.antt =====
-- pkg/controllers/nodeclass/controller.go, `Reconcile` and `reportIgnoredLabels`, which compose the
-- finalization, the validation and the migration. Texts and log lines are left out.
pub mod Advice
use karpenter_provider_cleve.Base.{
  ℕ, ◌*◌, Bool, true, false, not, ◌&&◌, Option, none, some, List, [], ◌∷◌, ◌++◌, Text, text_eq, any,
  is_empty, is_some, ltb, ◌==◌, if◌then◌else◌,
}
use karpenter_provider_cleve.Api.NodeGroup.{NodeGroup}
use karpenter_provider_cleve.Api.NodeClaim.{NodeClaim}
use karpenter_provider_cleve.Api.Labels.{LabelSyntax, LabelError}
use karpenter_provider_cleve.Api.NodeClass.{CleverNodeClass, Hashing}
use karpenter_provider_cleve.Provider.Backoff.{second}
use karpenter_provider_cleve.Controllers.Reads.{Answer, got, nothing, broken}
use karpenter_provider_cleve.Controllers.ProviderId.{Patch, patched, gone, refused}
use karpenter_provider_cleve.Controllers.HashMigration.{Migrated, migrate_hash_version}
use karpenter_provider_cleve.Controllers.HashMigration as Migration
use karpenter_provider_cleve.Controllers.Finalization.{
  Finalized, settled, requeue, failed, termination_finalizer, finalize, validate,
}

-- The reason of the LabelsIgnored condition; the count of pending groups is in its message, `none` where
-- it is unknown.
pub data IgnoredReason : Type 0 where
  legacy_label_keys : IgnoredReason
  hash_migration_pending : Option ℕ → IgnoredReason

pub record LabelsIgnored : Type 0 where
  pub keys : List Text
  pub reason : IgnoredReason

-- The conditions that the controller sets: ValidationSucceeded with the error that makes it False,
-- NodeGroupAPIServed, LabelsIgnored. `none` is a condition that is not there.
pub record Status : Type 0 where
  pub validation : Option (Option LabelError)
  pub api_served : Option Bool
  pub labels_ignored : Option LabelsIgnored

pub record ClassObject : Type 0 where
  pub class : CleverNodeClass
  pub status : Status

-- The answer to the patch of a status.
pub data StatusPatch : Type 0 where
  stored conflict vanished rejected : StatusPatch

-- The answers of one reconcile. `equal` is apimachinery's semantic equality of two statuses.
pub record World : Type 0 where
  pub object : Answer ClassObject
  pub claims : Option (List NodeClaim)
  pub finalizer_patch : Patch
  pub serves_api : Bool
  pub migration : Migration.World
  pub status_patch : StatusPatch
  pub equal : Status → Status → Bool

-- What a reconcile returns and leaves: the object as it is stored, if it was read, the NodeGroups, and
-- the LabelsIgnored event.
pub record Reconciled : Type 0 where
  pub result : Finalized
  pub object : Option ClassObject
  pub groups : List NodeGroup
  pub event : Option LabelsIgnored

-- `hashMigrationRecheck`
abbrev pub hash_migration_recheck : ℕ
hash_migration_recheck = 60 * second

unfoldable pub reason_for : Option ℕ → IgnoredReason
reason_for none = hash_migration_pending none
reason_for (some n) = if n == 0 then legacy_label_keys else hash_migration_pending (some n)

-- `reportIgnoredLabels`: the condition, which is cleared without keys, and the event. Clearing a condition
-- that readiness does not depend on returns no error.
unfoldable pub report_ignored_labels : List Text → Option ℕ → Option LabelsIgnored
unfolding reason_for
report_ignored_labels [] pending = none
report_ignored_labels (key ∷ keys) pending =
    some (record { keys = key ∷ keys; reason = reason_for pending })

-- `pending > 0`
unfoldable pub has_pending : Option ℕ → Bool
has_pending none = false
has_pending (some n) = ltb 0 n

-- What follows the patch of the status.
unfoldable pub come_back : Bool → Migrated → List Text → Finalized
unfolding has_pending
come_back serves_api m ignored =
    if not serves_api
    then requeue (60 * second)
    else if ltb 0 m.errors
    then failed
    else if not (is_empty ignored) && has_pending m.pending
    then requeue hash_migration_recheck
    else settled

-- The status is patched where it changed.
unfoldable pub store_status : World → ClassObject → Status → Finalized → Finalized × ClassObject
store_status w o status after =
    if w.equal o.status status then (after, o) else elim w.status_patch [
      | stored ↦ (after, record o { status = status })
      | conflict ↦ (requeue second, o)
      | vanished ↦ (settled, o)
      | rejected ↦ (failed, o)
    ]

module _ (hash_of : Hashing) (syntax : LabelSyntax) where
  -- The migration, where the API is served; its count is `pendingUnknown` otherwise.
  unfoldable pub migrate : World → CleverNodeClass → List NodeGroup → Migrated
  unfolding migrate_hash_version
  migrate w class groups =
      if w.serves_api
      then migrate_hash_version hash_of syntax class w.migration groups
      else record { groups = groups; pending = none; errors = 0 }

  -- The status that a reconcile computes.
  unfoldable pub new_status : World → CleverNodeClass → List NodeGroup → Status
  unfolding validate migrate report_ignored_labels
  new_status w class groups =
      let v = validate syntax class in
      record {
        validation = some v.error;
        api_served = some w.serves_api;
        labels_ignored = report_ignored_labels v.ignored (migrate w class groups).pending;
      }

  -- `Reconcile` of a class that has its finalizer
  unfoldable pub reconcile_live : World → ClassObject → List NodeGroup → Reconciled
  unfolding validate migrate new_status store_status come_back
  reconcile_live w o groups =
      let m = migrate w o.class groups in
      let status = new_status w o.class groups in
      let done =
        store_status w o status (come_back w.serves_api m (validate syntax o.class).ignored) in
      record {
        result = done.0;
        object = some done.1;
        groups = m.groups;
        event = status.labels_ignored;
      }

  -- `controllerutil.AddFinalizer` and its patch. The source goes on with the object that the patch returns;
  -- here it is the object read before it, with the finalizer added.
  unfoldable pub add_finalizer : World → ClassObject → List NodeGroup → Reconciled
  unfolding reconcile_live
  add_finalizer w o groups =
      if any (text_eq termination_finalizer) o.class.finalizers
      then reconcile_live w o groups
      else elim w.finalizer_patch [
        | patched ↦
            reconcile_live w
              (record o {
                class = record o.class {
                  finalizers = o.class.finalizers ++ (termination_finalizer ∷ []);
                };
              })
              groups
        | gone ↦ record { result = settled; object = some o; groups = groups; event = none }
        | refused ↦ record { result = failed; object = some o; groups = groups; event = none }
      ]

  -- What a finalization leaves.
  unfoldable pub finalized : ClassObject → List NodeGroup → Finalized × CleverNodeClass → Reconciled
  finalized o groups (result, class) = record {
    result = result;
    object = some (record o { class = class });
    groups = groups;
    event = none;
  }

  -- `Reconcile`
  unfoldable pub reconcile : World → List NodeGroup → Reconciled
  unfolding finalized finalize add_finalizer
  reconcile w groups = elim w.object [
    | nothing ↦ record { result = settled; object = none; groups = groups; event = none }
    | broken ↦ record { result = failed; object = none; groups = groups; event = none }
    | got o ↦
        if is_some o.class.deleted
        then finalized o groups (finalize w.claims w.finalizer_patch o.class)
        else add_finalizer w o groups
  ]
