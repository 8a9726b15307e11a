-- ===== src/Controllers/GarbageCollection/Overdue.antt =====
-- Overdue deletions: what the gauge counts, and what a failed list leaves alone.
use karpenter_provider_cleve.Base.{
  ℕ, ◌+◌, ◌≤◌, ◌≡◌, refl, sym, subst, ap, ◌∙◌, ◌↔◌, ◌⊎◌, inl, inr, true, none, some, List, [], ◌∷◌,
  Text, arith, IsIn, Bool-cases, is_some, lookup, lookup-insert, text_eq, text_eq_iff, Map,
}
use karpenter_provider_cleve.Api.NodeGroup.{NodeGroup}
use karpenter_provider_cleve.Provider.Backoff.{Catalogue}
use karpenter_provider_cleve.Controllers.GarbageCollection.{
  World, Sweep, is_overdue, overdue_groups, report_overdue_deletions, listing_groups,
  reconcile_groups, reconcile,
}

module _ (now : ℕ) (name : Text) where
  -- A group has been going for five minutes or more, in nanoseconds.
  abbrev pub IsOverdue : NodeGroup → Type 0
  IsOverdue ng = (at : ℕ) × (ng.deleted ≡ some at) × (at + 300_000_000_000 ≤ now)

  is_overdue_iff : (ng : NodeGroup) → (is_overdue now ng ≡ true) ↔ IsOverdue ng
  unfolding is_overdue
  is_overdue_iff ng = ground arith

  -- A group of the name is overdue.
  abbrev pub HasOverdue : List NodeGroup → Type 0
  HasOverdue groups = (ng : NodeGroup) × IsIn ng groups × (ng.name ≡ name) × IsOverdue ng

  overdue_groups_iff :
      (groups : List NodeGroup) (overdue : Map Text)
      → (is_some (lookup name (overdue_groups now groups overdue)) ≡ true)
        ↔ ((is_some (lookup name overdue) ≡ true) ⊎ HasOverdue groups)
  unfolding overdue_groups
  overdue_groups_iff [] overdue = (inl, λ h. elim h [ inl i ↦ i | inr (ng, i, _, _) ↦ elim i [ ] ])
  overdue_groups_iff (ng ∷ groups) overdue = elim (Bool-cases (is_overdue now ng)) [
    | inr healthy ↦
        rw (healthy, overdue_groups)
          (let rest = overdue_groups_iff groups overdue in
            (
              λ i. elim (rest.0 i) [ inl j ↦ inl j | inr (g, j, e, o) ↦ inr (g, inr j, e, o) ],
              λ h. rest.1 (elim h [
                | inl i ↦ inl i
                | inr (g, inr j, e, o) ↦ inr (g, j, e, o)
                | inr (g, inl p, e, o) ↦
                    cc (subst (λ z. is_overdue now z ≡ true) (sym p) ((is_overdue_iff g).1 o))
              ]),
            ))
    | inl late ↦
        rw (late, overdue_groups)
          (let rest = overdue_groups_iff groups _ in
            let found = lookup-insert ng.name name ng.uid overdue in
            (
              λ i. elim (rest.0 i) [
                | inl j ↦ elim (Bool-cases (text_eq ng.name name)) [
                  | inl same ↦
                      inr (
                        ng,
                        inl refl,
                        (text_eq_iff ng.name name).0 same,
                        (is_overdue_iff ng).0 late,
                      )
                  | inr other ↦ inl (ground (arith, found, other, j))
                ]
                | inr (g, j, e, o) ↦ inr (g, inr j, e, o)
              ],
              λ h. rest.1 (elim h [
                | inl i ↦ inl (ground (arith, found, i))
                | inr (g, inr j, e, o) ↦ inr (g, j, e, o)
                | inr (g, inl p, e, o) ↦
                    let same =
                      (text_eq_iff ng.name name).1 (ap (λ (z : NodeGroup). z.name) p ∙ e) in
                    inl (ground (arith, found, same))
              ]),
            ))
  ]

  nothing_found : is_some (lookup {V = Text} name []) ≡ true → ⊥
  unfolding lookup
  nothing_found h = cc

  -- After a report, a name is under observation exactly when a listed group of that name has been going
  -- for five minutes or more; what an earlier report observed is dropped.
  pub report_overdue_iff :
      (groups : List NodeGroup) (s : Sweep)
      → (is_some (lookup name (report_overdue_deletions now groups s).deletion_warned) ≡ true)
        ↔ HasOverdue groups
  unfolding report_overdue_deletions
  report_overdue_iff groups s = (
    λ i. elim ((overdue_groups_iff groups []).0 i) [ inl j ↦ absurd (nothing_found j) | inr h ↦ h ],
    λ h. (overdue_groups_iff groups []).1 (inr h),
  )

-- A sweep that cannot list the groups reports that and changes nothing else: it does nothing to the
-- cluster, and the gauges keep the last observation.
pub reconcile_unlisted :
    (sizing : Catalogue) (w : World) (s : Sweep)
    → w.groups ≡ none
    → reconcile sizing w s ≡ record s { effects = []; errors = listing_groups ∷ [] }
unfolding reconcile reconcile_groups
reconcile_unlisted sizing w s p =
    ap (λ o. reconcile_groups sizing w o (record s { effects = []; errors = [] })) p
