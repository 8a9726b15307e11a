-- ===== src/Controllers/HashMigration/Pending.antt =====
-- When no NodeGroup is pending, no stamp of an older generation is left.
use karpenter_provider_cleve.Base.{
  ◌+◌, ◌≡◌, ◌≢◌, refl, sym, ap, subst, ◌∙◌, ◌⊎◌, inl, inr, Bool, true, false, Option, none, some,
  List, [], ◌∷◌, Text, text_eq, text_eq_iff, arith, IsIn, Bool-cases, Option-cases, lookup,
}
use karpenter_provider_cleve.Api.NodeGroup.{NodeGroup}
use karpenter_provider_cleve.Api.Labels.{LabelSyntax}
use karpenter_provider_cleve.Api.NodeClass.{
  CleverNodeClassSpec, CleverNodeClass, Hashing, node_class_hash_version,
}
use karpenter_provider_cleve.Provider.Identity.{value_of}
use karpenter_provider_cleve.Provider.Payload.{node_class_hash_key, node_class_hash_version_key}
use karpenter_provider_cleve.Controllers.Reads.{Answer, got, nothing, broken}
use karpenter_provider_cleve.Controllers.ProviderId.{Patch, patched, gone, refused}
use karpenter_provider_cleve.Controllers.HashMigration.{
  World, restamp, restamp_unless_drifted, judge_stamp, migrate_stamp, migrate_group, is_selected,
  migrate_groups, migrate_hash_version,
}
use karpenter_provider_cleve.Controllers.HashMigration.Verdicts.{drift_verdict, restamped-stamp}

module _ (hash_of : Hashing) (syntax : LabelSyntax) (spec : CleverNodeClassSpec) where
  -- The group carries no stamp, today's, or one of a generation that the controller does not know.
  abbrev pub IsSettled : NodeGroup → Type 0
  IsSettled ng =
      (drift_verdict hash_of syntax spec ng ≡ none)
      ⊎ (value_of ng.annotations node_class_hash_version_key ≡ node_class_hash_version)

  restamp-IsSettled :
      (reply : Patch) (ng : NodeGroup)
      → reply ≢ gone
      → (restamp hash_of syntax spec reply ng).pending ≡ 0
      → IsSettled (restamp hash_of syntax spec reply ng).group
  unfolding restamp
  restamp-IsSettled patched ng n h = inr (restamped-stamp hash_of syntax spec ng).1
  restamp-IsSettled gone ng n h = absurd (n refl)
  restamp-IsSettled refused ng n h = absurd (omega (arith, h))

  restamp_unless_drifted-IsSettled :
      (reply : Patch) (answer : Answer Bool) (ng : NodeGroup)
      → reply ≢ gone
      → (restamp_unless_drifted hash_of syntax spec reply answer ng).pending ≡ 0
      → IsSettled (restamp_unless_drifted hash_of syntax spec reply answer ng).group
  unfolding restamp_unless_drifted
  restamp_unless_drifted-IsSettled reply nothing ng n h = absurd (omega (arith, h))
  restamp_unless_drifted-IsSettled reply broken ng n h = absurd (omega (arith, h))
  restamp_unless_drifted-IsSettled reply (got true) ng n h = absurd (omega (arith, h))
  restamp_unless_drifted-IsSettled reply (got false) ng n h = restamp-IsSettled reply ng n h

  judge_stamp-IsSettled :
      (w : World) (verdict : Option Bool) (ng : NodeGroup)
      → drift_verdict hash_of syntax spec ng ≡ verdict
      → w.patch ng.name ≢ gone
      → (judge_stamp hash_of syntax spec w verdict ng).pending ≡ 0
      → IsSettled (judge_stamp hash_of syntax spec w verdict ng).group
  unfolding judge_stamp
  judge_stamp-IsSettled w none ng e n h = inl e
  judge_stamp-IsSettled w (some false) ng e n h = absurd (omega (arith, h))
  judge_stamp-IsSettled w (some true) ng e n h = restamp_unless_drifted-IsSettled _ _ ng n h

  migrate_stamp-IsSettled :
      (w : World) (stamp : Option Text) (ng : NodeGroup)
      → lookup node_class_hash_key ng.annotations ≡ stamp
      → w.patch ng.name ≢ gone
      → (migrate_stamp hash_of syntax spec w stamp ng).pending ≡ 0
      → IsSettled (migrate_stamp hash_of syntax spec w stamp ng).group
  unfolding migrate_stamp drift_verdict
  migrate_stamp-IsSettled w none ng e n h = inl (rw (e, drift_verdict) refl)
  migrate_stamp-IsSettled w (some stamp) ng e n h =
      judge_stamp-IsSettled w _ ng (rw (e, drift_verdict) refl) n h

  migrate_group-IsSettled :
      (w : World) (ng : NodeGroup)
      → w.patch ng.name ≢ gone
      → (migrate_group hash_of syntax spec w ng).pending ≡ 0
      → IsSettled (migrate_group hash_of syntax spec w ng).group
  unfolding migrate_group
  migrate_group-IsSettled w ng n h =
      elim (Bool-cases
        (text_eq (value_of ng.annotations node_class_hash_version_key) node_class_hash_version)) [
          | inl current ↦ rw (current, migrate_group) (inr ((text_eq_iff _ _).0 current))
          | inr older ↦
              rw (older, migrate_group)
                (migrate_stamp-IsSettled w _ ng refl n (rw (older, migrate_group) at h))
        ]

module _ (hash_of : Hashing) (syntax : LabelSyntax) (class : CleverNodeClass) (w : World) where
  -- What a group of the class is turned into.
  abbrev pub migrated : NodeGroup → NodeGroup
  migrated ng = (migrate_group hash_of syntax class.spec w ng).group

  pending-split :
      (g : NodeGroup) (groups : List NodeGroup)
      → is_selected class g ≡ true
      → (migrate_groups hash_of syntax class w (g ∷ groups)).pending ≡ some 0
      → ((migrate_group hash_of syntax class.spec w g).pending ≡ 0)
        × ((migrate_groups hash_of syntax class w groups).pending ≡ some 0)
  unfolding migrate_groups
  pending-split g groups ours h =
      elim (Option-cases (migrate_groups hash_of syntax class w groups).pending) [
        | inl p ↦ cc (rw (ours, p, migrate_groups) at h)
        | inr (k, p) ↦
            let q : some ((migrate_group hash_of syntax class.spec w g).pending + k) ≡ some 0 =
              rw (ours, p, migrate_groups) at h in
            let z : (migrate_group hash_of syntax class.spec w g).pending + k ≡ 0 = cc in
            let kz : k ≡ 0 = omega (arith, z) in (omega (arith, z), p ∙ ap some kz)
      ]

  migrate_groups-IsSettled :
      (groups : List NodeGroup) (ng : NodeGroup)
      → (migrate_groups hash_of syntax class w groups).pending ≡ some 0
      → IsIn ng groups
      → is_selected class ng ≡ true
      → w.patch ng.name ≢ gone
      → IsIn (migrated ng) (migrate_groups hash_of syntax class w groups).groups
        × IsSettled hash_of syntax class.spec (migrated ng)
  unfolding migrate_groups
  migrate_groups-IsSettled [] ng h i ours n = elim i [ ]
  migrate_groups-IsSettled (g ∷ groups) ng h (inl e) ours n =
      let mine : is_selected class g ≡ true =
        subst (λ z. is_selected class z ≡ true) (sym e) ours in
      let zero_pending = pending-split g groups mine h in
      let here =
        migrate_group-IsSettled hash_of syntax class.spec w g
          (subst (λ z. w.patch z.name ≢ gone) (sym e) n) zero_pending.0 in
      (
        rw (mine, migrate_groups) (inl (ap migrated e)),
        subst (λ z. IsSettled hash_of syntax class.spec (migrated z)) e here,
      )
  migrate_groups-IsSettled (g ∷ groups) ng h (inr i) ours n =
      elim (Bool-cases (is_selected class g)) [
        | inl mine ↦
            let rest =
              migrate_groups-IsSettled groups ng (pending-split g groups mine h).1 i ours n in
            (rw (mine, migrate_groups) (inr rest.0), rest.1)
        | inr other ↦
            let rest =
              migrate_groups-IsSettled groups ng (rw (other, migrate_groups) at h) i ours n in
            (rw (other, migrate_groups) (inr rest.0), rest.1)
      ]

  -- When a migration counts no pending group, every group of the class that is still there has no stamp
  -- that an older generation, known to the controller, made: only then is a legacy label removed at no
  -- cost.
  pub migrate_hash_version-IsSettled :
      (groups : List NodeGroup) (ng : NodeGroup)
      → (migrate_hash_version hash_of syntax class w groups).pending ≡ some 0
      → IsIn ng groups
      → is_selected class ng ≡ true
      → w.patch ng.name ≢ gone
      → IsIn (migrated ng) (migrate_hash_version hash_of syntax class w groups).groups
        × IsSettled hash_of syntax class.spec (migrated ng)
  unfolding migrate_hash_version
  migrate_hash_version-IsSettled groups ng h i ours n = elim (Bool-cases w.lists) [
    | inl listed ↦
        let p : (migrate_groups hash_of syntax class w groups).pending ≡ some 0 =
          simp (listed, migrate_hash_version) at h in
        simp (listed, migrate_hash_version) (migrate_groups-IsSettled groups ng p i ours n)
    | inr failed ↦ cc (simp (failed, migrate_hash_version) at h)
  ]
