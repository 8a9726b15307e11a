-- ===== src/Controllers/NodeClass/Advice.antt =====
-- When the controller says that the ignored labels can be removed.
use karpenter_provider_cleve.Base.{
  ℕ, ◌≡◌, ◌≢◌, refl, inl, inr, true, false, Option, none, some, List, [], ◌∷◌, ◌++◌, Text, text_eq,
  any, arith, IsIn, Bool-cases, Option-cases,
}
use karpenter_provider_cleve.Api.NodeGroup.{NodeGroup}
use karpenter_provider_cleve.Api.Labels.{LabelSyntax}
use karpenter_provider_cleve.Api.NodeClass.{CleverNodeClass, Hashing}
use karpenter_provider_cleve.Controllers.Reads.{got}
use karpenter_provider_cleve.Controllers.ProviderId.{Patch, patched, gone, refused}
use karpenter_provider_cleve.Controllers.HashMigration.{is_selected}
use karpenter_provider_cleve.Controllers.HashMigration.Pending.{
  IsSettled, migrated, migrate_hash_version-IsSettled,
}
use karpenter_provider_cleve.Controllers.Finalization.{termination_finalizer, validate}
use karpenter_provider_cleve.Controllers.NodeClass.{
  legacy_label_keys, World, ClassObject, reason_for, report_ignored_labels, migrate, new_status,
  reconcile_live, add_finalizer, finalized, reconcile,
}

report_ignored_labels-legacy :
    (ignored keys : List Text) (pending : Option ℕ)
    → report_ignored_labels ignored pending
      ≡ some (record { keys = keys; reason = legacy_label_keys })
    → (keys ≡ ignored) × (pending ≡ some 0)
unfolding report_ignored_labels reason_for
report_ignored_labels-legacy [] keys pending h = cc
report_ignored_labels-legacy (k ∷ ks) keys none h = cc
report_ignored_labels-legacy (k ∷ ks) keys (some n) h = ground arith

module _ (hash_of : Hashing) (syntax : LabelSyntax) where
  -- The keys are those that the validation ignores, and no group of the class that is still there carries
  -- a stamp of an older generation that the controller knows.
  pub record IsSound (w : World) (class : CleverNodeClass) (groups after : List NodeGroup)
      (keys : List Text) : Type 0 where
    pub named : keys ≡ (validate syntax class).ignored
    pub settled :
        (ng : NodeGroup)
        → IsIn ng groups
        → is_selected class ng ≡ true
        → w.migration.patch ng.name ≢ gone
        → IsIn (migrated hash_of syntax class w.migration ng) after
          × IsSettled hash_of syntax class.spec (migrated hash_of syntax class w.migration ng)

  reconcile_live-IsSound :
      (w : World) (o : ClassObject) (groups : List NodeGroup) (keys : List Text)
      → (reconcile_live hash_of syntax w o groups).event
        ≡ some (record { keys = keys; reason = legacy_label_keys })
      → IsSound w o.class groups (reconcile_live hash_of syntax w o groups).groups keys
  unfolding reconcile_live new_status migrate
  reconcile_live-IsSound w o groups keys h =
      let v = validate syntax o.class in
      let (named, none_left) =
        report_ignored_labels-legacy v.ignored keys
          (migrate hash_of syntax w o.class groups).pending h in
      elim (Bool-cases w.serves_api) [
        | inr s ↦ cc (simp (s, migrate) at none_left)
        | inl s ↦ record {
          named = named;
          settled = λ ng i ours n.
              simp (s, migrate)
                (migrate_hash_version-IsSettled hash_of syntax o.class w.migration groups ng
                  (simp (s, migrate) at none_left) i ours n);
        }
      ]

  -- The event of a reconcile has the reason LegacyLabelKeys only when its keys are those that the
  -- validation ignores, and no listed group of the class that is still there carries a stamp of an older
  -- generation that the controller knows.
  pub reconcile-IsSound :
      (w : World) (o : ClassObject) (groups : List NodeGroup) (keys : List Text)
      → w.object ≡ got o
      → (reconcile hash_of syntax w groups).event
        ≡ some (record { keys = keys; reason = legacy_label_keys })
      → IsSound w o.class groups (reconcile hash_of syntax w groups).groups keys
  unfolding reconcile finalized add_finalizer is_selected
  reconcile-IsSound w o groups keys e h = elim (Option-cases o.class.deleted) [
    | inr (t, going) ↦ cc (simp (e, going, reconcile) at h)
    | inl live ↦ elim (Bool-cases (any (text_eq termination_finalizer) o.class.finalizers)) [
      | inl has ↦
          simp (e, live, has, reconcile)
            (reconcile_live-IsSound w o groups keys (simp (e, live, has, reconcile) at h))
      | inr lacks ↦ of_patch live lacks w.finalizer_patch refl
    ]
  ]
    where
      of_patch :
          o.class.deleted ≡ none
          → any (text_eq termination_finalizer) o.class.finalizers ≡ false
          → (reply : Patch) → w.finalizer_patch ≡ reply
          → IsSound w o.class groups (reconcile hash_of syntax w groups).groups keys
      of_patch live lacks gone r = cc (simp (e, live, lacks, r, reconcile) at h)
      of_patch live lacks refused r = cc (simp (e, live, lacks, r, reconcile) at h)
      of_patch live lacks patched r =
          let added : ClassObject = record o {
            class = record o.class {
              finalizers = o.class.finalizers ++ (termination_finalizer ∷ []);
            };
          } in
          let sound =
            reconcile_live-IsSound w added groups keys (simp (e, live, lacks, r, reconcile) at h) in
          simp (e, live, lacks, r, reconcile)
            (record { named = sound.named; settled = sound.settled })
