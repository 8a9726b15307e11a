-- ===== src/Controllers/HashMigration/Verdicts.antt =====
-- The migration never changes what a drift evaluation says.
use karpenter_provider_cleve.Base.{
  ◌≡◌, refl, sym, ◌∙◌, inl, inr, Bool, true, false, Option, none, some, List, [], ◌∷◌, Text,
  text_eq, text_eq_refl, map, Bool-cases, lookup, insert,
}
use karpenter_provider_cleve.Api.NodeGroup.{NodeGroup}
use karpenter_provider_cleve.Api.Labels.{LabelSyntax}
use karpenter_provider_cleve.Api.NodeClass.{
  CleverNodeClassSpec, CleverNodeClass, Hashing, hash, hash_matches, node_class_hash_version,
}
use karpenter_provider_cleve.Provider.Identity.{value_of}
use karpenter_provider_cleve.Provider.Payload.{node_class_hash_key, node_class_hash_version_key}
use karpenter_provider_cleve.Controllers.Reads.{Answer, got, nothing, broken}
use karpenter_provider_cleve.Controllers.ProviderId.{Patch, patched, gone, refused}
use karpenter_provider_cleve.Controllers.HashMigration.{
  World, restamped, restamp, restamp_unless_drifted, judge_stamp, migrate_stamp, migrate_group,
  is_selected, migrate_groups, migrate_hash_version,
}

module _ (hash_of : Hashing) (syntax : LabelSyntax) (spec : CleverNodeClassSpec) where
  -- What a drift evaluation says of a group: nothing without a stamp or for an unknown generation, else
  -- whether the stamp matches.
  unfoldable pub drift_verdict : NodeGroup → Option Bool
  drift_verdict ng = elim (lookup node_class_hash_key ng.annotations) [
    | none ↦ none
    | some stamp ↦
        hash_matches hash_of syntax spec (value_of ng.annotations node_class_hash_version_key) stamp
  ]

  pub restamped-stamp :
      (ng : NodeGroup)
      → (lookup node_class_hash_key (restamped hash_of syntax spec ng).annotations
          ≡ some (hash hash_of syntax spec))
        × (value_of (restamped hash_of syntax spec ng).annotations node_class_hash_version_key
            ≡ node_class_hash_version)
  unfolding restamped value_of insert lookup text_eq
  restamped-stamp ng = (refl, refl)

  restamped-verdict :
      (ng : NodeGroup) → drift_verdict (restamped hash_of syntax spec ng) ≡ some true
  unfolding drift_verdict hash_matches text_eq
  restamped-verdict ng =
      let (a, b) = restamped-stamp ng in
      let same = text_eq_refl (hash hash_of syntax spec) in
      rw (a, b, same, drift_verdict, hash_matches) refl

  restamp-verdict :
      (reply : Patch) (ng : NodeGroup)
      → drift_verdict ng ≡ some true
      → drift_verdict (restamp hash_of syntax spec reply ng).group ≡ drift_verdict ng
  unfolding restamp
  restamp-verdict patched ng h = restamped-verdict ng ∙ sym h
  restamp-verdict gone ng h = refl
  restamp-verdict refused ng h = refl

  restamp_unless_drifted-verdict :
      (reply : Patch) (answer : Answer Bool) (ng : NodeGroup)
      → drift_verdict ng ≡ some true
      → drift_verdict (restamp_unless_drifted hash_of syntax spec reply answer ng).group
        ≡ drift_verdict ng
  unfolding restamp_unless_drifted
  restamp_unless_drifted-verdict reply nothing ng h = refl
  restamp_unless_drifted-verdict reply broken ng h = refl
  restamp_unless_drifted-verdict reply (got true) ng h = refl
  restamp_unless_drifted-verdict reply (got false) ng h = restamp-verdict reply ng h

  judge_stamp-verdict :
      (w : World) (verdict : Option Bool) (ng : NodeGroup)
      → drift_verdict ng ≡ verdict
      → drift_verdict (judge_stamp hash_of syntax spec w verdict ng).group ≡ drift_verdict ng
  unfolding judge_stamp
  judge_stamp-verdict w none ng h = refl
  judge_stamp-verdict w (some false) ng h = refl
  judge_stamp-verdict w (some true) ng h = restamp_unless_drifted-verdict _ _ ng h

  migrate_stamp-verdict :
      (w : World) (stamp : Option Text) (ng : NodeGroup)
      → lookup node_class_hash_key ng.annotations ≡ stamp
      → drift_verdict (migrate_stamp hash_of syntax spec w stamp ng).group ≡ drift_verdict ng
  unfolding migrate_stamp drift_verdict
  migrate_stamp-verdict w none ng h = refl
  migrate_stamp-verdict w (some stamp) ng h =
      judge_stamp-verdict w _ ng (rw (h, drift_verdict) refl)

  migrate_group-verdict :
      (w : World) (ng : NodeGroup)
      → drift_verdict (migrate_group hash_of syntax spec w ng).group ≡ drift_verdict ng
  unfolding migrate_group
  migrate_group-verdict w ng =
      elim (Bool-cases
        (text_eq (value_of ng.annotations node_class_hash_version_key) node_class_hash_version)) [
          | inl current ↦ rw (current, migrate_group) refl
          | inr older ↦ rw (older, migrate_group) (migrate_stamp-verdict w _ ng refl)
        ]

module _ (hash_of : Hashing) (syntax : LabelSyntax) (class : CleverNodeClass) (w : World) where
  migrate_groups-verdicts :
      (groups : List NodeGroup)
      → map
          (drift_verdict hash_of syntax class.spec)
          (migrate_groups hash_of syntax class w groups).groups
        ≡ map (drift_verdict hash_of syntax class.spec) groups
  unfolding migrate_groups
  migrate_groups-verdicts [] = refl
  migrate_groups-verdicts (ng ∷ groups) = elim (Bool-cases (is_selected class ng)) [
    | inl ours ↦
        rw (ours, migrate_groups)
          (rw (migrate_group-verdict hash_of syntax class.spec w ng, migrate_groups-verdicts groups)
            refl)
    | inr other ↦ rw (other, migrate_groups) (rw (migrate_groups-verdicts groups) refl)
  ]

  -- Before and after a migration, drift is evaluated alike on every NodeGroup: re-stamping neither makes
  -- a node drift nor hides that one does.
  pub migrate_hash_version-verdicts :
      (groups : List NodeGroup)
      → map
          (drift_verdict hash_of syntax class.spec)
          (migrate_hash_version hash_of syntax class w groups).groups
        ≡ map (drift_verdict hash_of syntax class.spec) groups
  unfolding migrate_hash_version
  migrate_hash_version-verdicts groups = elim (Bool-cases w.lists) [
    | inl listed ↦ simp (listed, migrate_hash_version) (migrate_groups-verdicts groups)
    | inr failed ↦ simp (failed, migrate_hash_version) refl
  ]
