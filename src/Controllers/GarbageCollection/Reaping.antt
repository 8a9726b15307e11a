-- ===== src/Controllers/GarbageCollection/Reaping.antt =====
-- Which NodeGroups a sweep deletes: exactly the orphans.
use karpenter_provider_cleve.Base.{
  ℕ, ◌≡◌, refl, sym, ap, subst, ◌∙◌, ◌↔◌, ◌⊎◌, inl, inr, true, Option, none, some, List, [], ◌∷◌,
  Text, arith, IsIn, IsIn-append, Bool-cases, is_some, ◌==◌,
}
use karpenter_provider_cleve.Api.NodeGroup.{NodeGroup}
use karpenter_provider_cleve.Api.NodeClaim.{NodeClaim}
use karpenter_provider_cleve.Provider.Identity.{is_managed}
use karpenter_provider_cleve.Provider.Backoff.{Catalogue}
use karpenter_provider_cleve.Provider.Delete.{DeleteReply, accepted, rejected}
use karpenter_provider_cleve.Provider.Effects.{deletes}
use karpenter_provider_cleve.Controllers.GarbageCollection.{
  World, Sweep, Verdict, keep, refuse, reap, stuck, verdict, claim_verdict, reap_claim, sweep_claim,
  sweep_claims, reap_vanished_node_claims, warn_resize, note_resize, refuse_group, reaped,
  reap_group, act, sweep_group, sweep_groups, list_managed, overdue_events,
  report_overdue_deletions, sweep, reconcile_groups, reconcile,
}
use karpenter_provider_cleve.Controllers.GarbageCollection.Orphans.{
  IsOrphan, verdict-cases, verdict-IsOrphan, IsOrphan-verdict,
}

module _ (w : World) (claims : List NodeClaim) (ng : NodeGroup) (sizing : Catalogue)
    (x : Text) where
  none_in_reaped : (reply : DeleteReply) → IsIn (deletes x) (reaped w ng reply) → ⊥
  unfolding reaped
  none_in_reaped accepted i = ground arith
  none_in_reaped _ i = i

  act-deletes :
      (v : Verdict) (s : Sweep)
      → IsIn (deletes x) (act w sizing ng v s).effects
        ↔ (IsIn (deletes x) s.effects ⊎ ((ng.name ≡ x) × (v ≡ reap)))
  unfolding act refuse_group reap_group
  act-deletes keep s = (inl, λ h. elim h [ inl i ↦ i | inr (_, e) ↦ cc ])
  act-deletes refuse s = (
    λ i. elim ((IsIn-append _ s.effects _).0 i) [
      | inl j ↦ inl j
      | inr (inl e) ↦ cc
      | inr (inr j) ↦ elim j [ ]
    ],
    λ h. elim h [ inl i ↦ (IsIn-append _ s.effects _).1 (inl i) | inr (_, e) ↦ cc ],
  )
  act-deletes (stuck n) s = (inl, λ h. elim h [ inl i ↦ i | inr (_, e) ↦ cc ])
  act-deletes reap s = (
    λ i. elim ((IsIn-append _ s.effects _).0 i) [
      | inl j ↦ inl j
      | inr (inl e) ↦ inr (cc, refl)
      | inr (inr j) ↦ absurd (none_in_reaped (w.group_delete ng.name) j)
    ],
    λ h. elim h [
      | inl i ↦ (IsIn-append _ s.effects _).1 (inl i)
      | inr (e, _) ↦ (IsIn-append _ s.effects _).1 (inr (inl (ap deletes e)))
    ],
  )

  warn_resize-deletes :
      (s : Sweep) → IsIn (deletes x) (warn_resize w ng s).effects ↔ IsIn (deletes x) s.effects
  unfolding warn_resize
  warn_resize-deletes s = (
    λ i. elim ((IsIn-append _ s.effects _).0 i) [
      | inl j ↦ j
      | inr (inl e) ↦ cc
      | inr (inr j) ↦ elim j [ ]
    ],
    λ i. (IsIn-append _ s.effects _).1 (inl i),
  )

  note_resize-deletes :
      (s : Sweep) → IsIn (deletes x) (note_resize w ng s).effects ↔ IsIn (deletes x) s.effects
  unfolding note_resize
  note_resize-deletes s = elim (Bool-cases (ng.spec.node_count == 1)) [
    | inl one ↦ rw (one, note_resize) (λ i. i, λ i. i)
    | inr resized ↦ rw (resized, note_resize) (warn_resize-deletes s)
  ]

  sweep_group-deletes :
      (s : Sweep)
      → IsIn (deletes x) (sweep_group w sizing claims ng s).effects
        ↔ (IsIn (deletes x) s.effects ⊎ ((ng.name ≡ x) × IsOrphan w claims ng))
  unfolding sweep_group
  sweep_group-deletes s = elim (Bool-cases (is_some ng.deleted)) [
    | inl going ↦ rw (going, sweep_group) (inl, λ h. elim h [ inl i ↦ i | inr (e, v) ↦ cc v.stays ])
    | inr stays ↦
        rw (stays, sweep_group)
          (
            λ i. elim ((act-deletes (verdict w claims ng) (note_resize w ng s)).0 i) [
              | inl j ↦ inl ((note_resize-deletes s).0 j)
              | inr (e, r) ↦ inr (e, verdict-IsOrphan w claims ng stays r)
            ],
            λ h. (act-deletes (verdict w claims ng) (note_resize w ng s)).1 (elim h [
              | inl j ↦ inl ((note_resize-deletes s).1 j)
              | inr (e, v) ↦ inr (e, IsOrphan-verdict w claims ng v)
            ]),
          )
  ]

module _ (w : World) (claims : List NodeClaim) (sizing : Catalogue) (x : Text) where
  -- Among the groups there is an orphan of the name.
  abbrev pub HasOrphan : List NodeGroup → Type 0
  HasOrphan groups = (ng : NodeGroup) × IsIn ng groups × (ng.name ≡ x) × IsOrphan w claims ng

  sweep_groups-deletes :
      (groups : List NodeGroup) (s : Sweep)
      → IsIn (deletes x) (sweep_groups w sizing claims groups s).effects
        ↔ (IsIn (deletes x) s.effects ⊎ HasOrphan groups)
  unfolding sweep_groups
  sweep_groups-deletes [] s = (inl, λ h. elim h [ inl i ↦ i | inr (ng, i, _, _) ↦ elim i [ ] ])
  sweep_groups-deletes (ng ∷ groups) s =
      let rest = sweep_groups-deletes groups (sweep_group w sizing claims ng s) in
      let one = sweep_group-deletes w claims ng sizing x s in
      (
        λ i. elim (rest.0 i) [
          | inr (g, j, e, v) ↦ inr (g, inr j, e, v)
          | inl j ↦ elim (one.0 j) [ inl k ↦ inl k | inr (e, v) ↦ inr (ng, inl refl, e, v) ]
        ],
        λ h. rest.1 (elim h [
          | inl i ↦ inl (one.1 (inl i))
          | inr (g, inr j, e, v) ↦ inr (g, j, e, v)
          | inr (g, inl p, e, v) ↦
              inl (one.1 (inr (subst (λ z. (z.name ≡ x) × IsOrphan w claims z) (sym p) (e, v))))
        ]),
      )

  overdue_events-deletes :
      (now : ℕ) (groups : List NodeGroup) → IsIn (deletes x) (overdue_events now groups) → ⊥
  unfolding overdue_events
  overdue_events-deletes now [] i = i
  overdue_events-deletes now (ng ∷ groups) i = ground (arith, overdue_events-deletes now groups)

  reap_claim-deletes :
      (claim : NodeClaim) (reply : DeleteReply) (s : Sweep)
      → IsIn (deletes x) (reap_claim w claim reply s).effects ↔ IsIn (deletes x) s.effects
  unfolding reap_claim
  reap_claim-deletes claim (rejected m) s = (
    λ i. elim ((IsIn-append _ s.effects _).0 i) [ inl j ↦ j | inr j ↦ ground arith ],
    λ i. (IsIn-append _ s.effects _).1 (inl i),
  )
  reap_claim-deletes claim _ s = (
    λ i. elim ((IsIn-append _ s.effects _).0 i) [ inl j ↦ j | inr j ↦ ground arith ],
    λ i. (IsIn-append _ s.effects _).1 (inl i),
  )

  sweep_claim-deletes :
      (all : List NodeGroup) (claim : NodeClaim) (s : Sweep)
      → IsIn (deletes x) (sweep_claim w all claim s).effects ↔ IsIn (deletes x) s.effects
  unfolding sweep_claim
  sweep_claim-deletes all claim s = elim (verdict-cases (claim_verdict w all claim)) [
    | inl p ↦ rw (p, sweep_claim) (reap_claim-deletes claim (w.claim_delete claim.name) s)
    | inr (inl p) ↦ rw (p, sweep_claim) (λ i. i, λ i. i)
    | inr (inr (inl p)) ↦ rw (p, sweep_claim) (λ i. i, λ i. i)
    | inr (inr (inr (n, p))) ↦ rw (p, sweep_claim) (λ i. i, λ i. i)
  ]

  sweep_claims-deletes :
      (all : List NodeGroup) (rest : List NodeClaim) (s : Sweep)
      → IsIn (deletes x) (sweep_claims w all rest s).effects ↔ IsIn (deletes x) s.effects
  unfolding sweep_claims
  sweep_claims-deletes all [] s = (λ i. i, λ i. i)
  sweep_claims-deletes all (claim ∷ rest) s =
      let one = sweep_claim-deletes all claim s in
      let more = sweep_claims-deletes all rest (sweep_claim w all claim s) in
      (λ i. one.0 (more.0 i), λ i. more.1 (one.1 i))

  reap_vanished-deletes :
      (rest : List NodeClaim) (all : Option (List NodeGroup)) (s : Sweep)
      → IsIn (deletes x) (reap_vanished_node_claims w rest all s).effects
        ↔ IsIn (deletes x) s.effects
  unfolding reap_vanished_node_claims
  reap_vanished-deletes rest none s = (λ i. i, λ i. i)
  reap_vanished-deletes rest (some all) s = sweep_claims-deletes all rest s

IsIn-list_managed :
    (ng : NodeGroup) (groups : List NodeGroup)
    → IsIn ng (list_managed groups) ↔ (IsIn ng groups × (is_managed ng ≡ true))
unfolding list_managed
IsIn-list_managed ng [] = ground arith
IsIn-list_managed ng (g ∷ groups) = ground (arith, IsIn-list_managed ng groups)

-- A sweep that could list the groups and the claims asks for a group's deletion exactly when the
-- group is listed, managed and an orphan: never while a claim that it names is listed or alive on the API
-- server, without an owner reference, or in its first two minutes; and no failure on another
-- object shields it.
pub reconcile_deletes_iff :
    (sizing : Catalogue) (w : World) (s : Sweep) (x : Text) (groups : List NodeGroup)
    (claims : List NodeClaim)
    → w.groups ≡ some groups
    → w.claims ≡ some claims
    → IsIn (deletes x) (reconcile sizing w s).effects ↔ (
        (ng : NodeGroup) × IsIn ng groups
        × (is_managed ng ≡ true)
        × (ng.name ≡ x)
        × IsOrphan w claims ng)
unfolding reconcile reconcile_groups sweep report_overdue_deletions
reconcile_deletes_iff sizing w s x groups claims p q =
    let managed = list_managed groups in
    let start = record s { effects = []; errors = [] } in
    let reported = report_overdue_deletions w.overdue_now managed start in
    let e =
      ap (λ o. reconcile_groups sizing w o start) p
      ∙ ap (λ o. sweep sizing w managed o reported) q in
    subst
      (λ r. IsIn (deletes x) r.effects ↔ (
        (ng : NodeGroup) × IsIn ng groups
        × (is_managed ng ≡ true)
        × (ng.name ≡ x)
        × IsOrphan w claims ng))
      (sym e)
      (
        λ i. elim ((sweep_groups-deletes w claims sizing x managed _).0 i) [
          | inr (ng, j, n, v) ↦ let (k, m) = (IsIn-list_managed ng groups).0 j in (ng, k, m, n, v)
          | inl j ↦ absurd (
              overdue_events-deletes w claims sizing x w.overdue_now managed
                ((reap_vanished-deletes w claims sizing x claims w.all_groups _).0 j))
        ],
        λ (ng, j, m, n, v).
            (sweep_groups-deletes w claims sizing x managed _).1
              (inr (ng, (IsIn-list_managed ng groups).1 (j, m), n, v)),
      )
