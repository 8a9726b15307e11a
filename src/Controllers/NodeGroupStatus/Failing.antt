-- ===== src/Controllers/NodeGroupStatus/Failing.antt =====
-- When a launch is failed after its acceptance, and what that leaves behind.
use karpenter_provider_cleve.Base.{
  ℕ, ◌+◌, ◌<◌, ◌≢◌, ◌≡◌, refl, subst, ◌⊎◌, inl, inr, true, false, List, [], ◌∷◌, ◌++◌, Text, arith,
  IsIn, IsIn-append, Bool-cases, Option-cases, is_some, ltb,
}
use karpenter_provider_cleve.Api.NodeGroup.{
  NodeGroup, is_synced, is_refused, is_quota_exceeded, refusal, transient_failure,
}
use karpenter_provider_cleve.Api.NodeClaim.{NodeClaim}
use karpenter_provider_cleve.Provider.Backoff.{Backoff, Catalogue, unavailable, quota_backoff}
use karpenter_provider_cleve.Provider.Delete.{record_late_refusal}
use karpenter_provider_cleve.Provider.Delete.Forgetting.{late_refusal-unavailable}
use karpenter_provider_cleve.Provider.Effects.{Effect, EventReason, deletes_claim, publishes}
use karpenter_provider_cleve.Controllers.Reads.{Answer, got, nothing, broken}
use karpenter_provider_cleve.Controllers.NodeGroupStatus.{
  World, sync_overdue_after, ClaimDelete, deleted, gone, conflict, refused, Follow, Result, forget,
  first_log, surface_transient_failure, set_overdue, report_overdue, is_launched_for, is_followed,
  launched_claim, launched_node_claim, delete_claim, fail_confirmed, fail_launch, follow, judge,
  reconcile_group, reconcile,
}

answer-cases :
    {A : Type 0} (a : Answer A) → (a ≡ nothing) ⊎ ((a ≡ broken) ⊎ ((x : A) × (a ≡ got x)))
answer-cases nothing = inl refl
answer-cases broken = inr (inl refl)
answer-cases (got x) = inr (inr (x, refl))

-- The uncached reads confirm that the launch failed: the group is followed, unsynced and refused, and
-- its NodeClaim is this provider's, launched, unregistered and backed by it.
pub record IsFailedLaunch (w : World) (ng : NodeGroup) (claim : NodeClaim) : Type 0 where
  pub group_read : w.group ≡ got ng
  pub claim_read : w.claim ≡ got claim
  pub followed : is_followed ng ≡ true
  pub launched_for : is_launched_for ng claim ≡ true
  pub unsynced : is_synced ng ≡ false
  pub refused_group : is_refused ng ≡ true

launched_node_claim-eq :
    (ng : NodeGroup) (answer : Answer NodeClaim) (claim : NodeClaim)
    → launched_node_claim ng answer ≡ got claim
    → (answer ≡ got claim) × (is_followed ng ≡ true) × (is_launched_for ng claim ≡ true)
unfolding launched_node_claim launched_claim
launched_node_claim-eq ng nothing claim h = elim (Bool-cases (is_followed ng)) [
  | inl p ↦ cc (rw (p, launched_node_claim) at h)
  | inr p ↦ cc (rw (p, launched_node_claim) at h)
]
launched_node_claim-eq ng broken claim h = elim (Bool-cases (is_followed ng)) [
  | inl p ↦ cc (rw (p, launched_node_claim) at h)
  | inr p ↦ cc (rw (p, launched_node_claim) at h)
]
launched_node_claim-eq ng (got c) claim h = elim (Bool-cases (is_followed ng)) [
  | inr p ↦ cc (rw (p, launched_node_claim) at h)
  | inl p ↦ elim (Bool-cases (is_launched_for ng c)) [
    | inr q ↦ cc (rw (p, q, launched_node_claim, launched_claim) at h)
    | inl q ↦
        let e : got c ≡ got claim = rw (p, q, launched_node_claim, launched_claim) at h in
        let same : c ≡ claim = cc in (e, p, subst (λ z. is_launched_for ng z ≡ true) same q)
  ]
]

module _ (sizing : Catalogue) (w : World) (x : Text) (now : ℕ)
    (early : now < w.record_now + quota_backoff) where
  -- What a reconcile that deletes a claim rests on, and what it leaves.
  abbrev pub FailsWell : Result × Follow → Type 0
  FailsWell r =
      (ng : NodeGroup) × (claim : NodeClaim) × (claim.name ≡ x)
      × IsFailedLaunch w ng claim
      × ((w.reply ≢ deleted) ⊎ (unavailable sizing now ng.spec.flavor r.1.backoff ≡ true))

  abbrev pub Asks : Follow → Type 0
  Asks s = IsIn (deletes_claim x) s.effects

  record_late_refusal-Asks :
      (at : ℕ) (name : Text) (ng : NodeGroup) (b : Backoff)
      → IsIn (deletes_claim x) (record_late_refusal sizing at name ng b).effects
      → ⊥
  unfolding record_late_refusal
  record_late_refusal-Asks at name ng b i = elim (Bool-cases (is_quota_exceeded ng)) [
    | inl quota ↦ ground (arith, (rw (quota, record_late_refusal) at i))
    | inr other ↦ elim (Option-cases (refusal ng)) [
      | inl p ↦ ground (arith, (rw (other, p, record_late_refusal) at i))
      | inr (r, p) ↦ ground (arith, (rw (other, p, record_late_refusal) at i))
    ]
  ]

  asked :
      (claim : NodeClaim) (s : Follow)
      → (Asks s → ⊥)
      → IsIn (deletes_claim x) (s.effects ++ (deletes_claim claim.name ∷ []))
      → claim.name ≡ x
  asked claim s clean i = elim ((IsIn-append _ s.effects _).0 i) [
    | inl k ↦ absurd (clean k)
    | inr (inl q) ↦ cc
    | inr (inr k) ↦ elim k [ ]
  ]

  delete_claim-FailsWell :
      (ng : NodeGroup) (claim : NodeClaim) (reply : ClaimDelete) (s : Follow)
      → w.reply ≡ reply
      → IsFailedLaunch w ng claim
      → (Asks s → ⊥)
      → Asks (delete_claim sizing w.record_now ng claim reply s).1
      → FailsWell (delete_claim sizing w.record_now ng claim reply s)
  unfolding delete_claim
  delete_claim-FailsWell ng claim deleted s e v clean i = (
    ng,
    claim,
    elim ((IsIn-append _ (s.effects ++ _) _).0 i) [
      | inl j ↦ elim ((IsIn-append _ s.effects _).0 j) [
        | inl k ↦ absurd (clean k)
        | inr (inl q) ↦ cc
        | inr (inr k) ↦ elim k [ ]
      ]
      | inr j ↦ absurd (record_late_refusal-Asks w.record_now claim.name ng s.backoff j)
    ],
    v,
    inr (
        late_refusal-unavailable sizing w.record_now now claim.name ng s.backoff v.refused_group
          early),
  )
  delete_claim-FailsWell ng claim gone s e v clean i =
      (ng, claim, asked claim s clean i, v, inl (λ d. cc))
  delete_claim-FailsWell ng claim conflict s e v clean i =
      (ng, claim, asked claim s clean i, v, inl (λ d. cc))
  delete_claim-FailsWell ng claim refused s e v clean i =
      (ng, claim, asked claim s clean i, v, inl (λ d. cc))

  fail_launch-FailsWell :
      (answer : Answer NodeGroup) (s : Follow)
      → w.group ≡ answer
      → (Asks s → ⊥)
      → Asks (fail_launch sizing w answer s).1
      → FailsWell (fail_launch sizing w answer s)
  unfolding fail_launch fail_confirmed
  fail_launch-FailsWell nothing s e clean i = absurd (clean i)
  fail_launch-FailsWell broken s e clean i = absurd (clean i)
  fail_launch-FailsWell (got ng) s e clean i =
      elim (answer-cases (launched_node_claim ng w.claim)) [
        | inl p ↦ absurd (clean (rw (p, fail_launch, fail_confirmed) at i))
        | inr (inl p) ↦ absurd (clean (rw (p, fail_launch, fail_confirmed) at i))
        | inr (inr (claim, p)) ↦ elim (Bool-cases (is_synced ng)) [
          | inl up ↦ absurd (clean (rw (p, up, fail_launch, fail_confirmed) at i))
          | inr unsynced ↦ elim (Bool-cases (is_refused ng)) [
            | inr fine ↦ absurd (clean (rw (p, unsynced, fine, fail_launch, fail_confirmed) at i))
            | inl lost ↦
                rw (p, unsynced, lost, fail_launch, fail_confirmed)
                  (let (read, followed, launched_for) = launched_node_claim-eq ng w.claim claim p in
                    let v : IsFailedLaunch w ng claim = record {
                      group_read = e;
                      claim_read = read;
                      followed = followed;
                      launched_for = launched_for;
                      unsynced = unsynced;
                      refused_group = lost;
                    } in
                    delete_claim-FailsWell ng claim w.reply s refl v clean
                      (rw (p, unsynced, lost, fail_launch, fail_confirmed) at i))
          ]
        ]
      ]

  published_asks :
      (reason : EventReason) (name : Text) (es : List Effect)
      → IsIn (deletes_claim x) (es ++ (publishes reason name ∷ []))
      → IsIn (deletes_claim x) es
  published_asks reason name es i = elim ((IsIn-append _ es _).0 i) [
    | inl k ↦ k
    | inr (inl q) ↦ cc
    | inr (inr k) ↦ elim k [ ]
  ]

  follow-Asks :
      (at : ℕ) (ng : NodeGroup) (claim : NodeClaim) (s : Follow)
      → Asks (follow at ng claim s).1
      → Asks s
  unfolding follow surface_transient_failure report_overdue first_log set_overdue
  follow-Asks at ng claim s i = elim (Bool-cases (is_some (transient_failure ng))) [
    | inl t ↦ elim (Bool-cases (ltb at (ng.created + sync_overdue_after))) [
      | inl young ↦ published_asks _ claim.name s.effects (rw (t, young, follow) at i)
      | inr old ↦
          published_asks _ claim.name s.effects
            (published_asks _ claim.name _ (rw (t, old, follow) at i))
    ]
    | inr t ↦ elim (Bool-cases (ltb at (ng.created + sync_overdue_after))) [
      | inl young ↦ rw (t, young, follow) at i
      | inr old ↦ published_asks _ claim.name s.effects (rw (t, old, follow) at i)
    ]
  ]

  judge-FailsWell :
      (ng : NodeGroup) (answer : Answer NodeClaim) (s : Follow)
      → (Asks s → ⊥)
      → Asks (judge sizing w ng answer s).1
      → FailsWell (judge sizing w ng answer s)
  unfolding judge forget
  judge-FailsWell ng broken s clean i = absurd (clean i)
  judge-FailsWell ng nothing s clean i = absurd (clean i)
  judge-FailsWell ng (got claim) s clean i = elim (Bool-cases (is_synced ng)) [
    | inl up ↦ absurd (clean (rw (up, judge) at i))
    | inr unsynced ↦ elim (Bool-cases (is_refused ng)) [
      | inr fine ↦
          absurd (clean (follow-Asks w.age_now ng claim s (rw (unsynced, fine, judge) at i)))
      | inl lost ↦
          rw (unsynced, lost, judge)
            (fail_launch-FailsWell w.group (forget ng.name s) refl clean
              (rw (unsynced, lost, judge) at i))
    ]
  ]

  reconcile_group-FailsWell :
      (name : Text) (answer : Answer NodeGroup) (s : Follow)
      → (Asks s → ⊥)
      → Asks (reconcile_group sizing w name answer s).1
      → FailsWell (reconcile_group sizing w name answer s)
  unfolding reconcile_group forget
  reconcile_group-FailsWell name nothing s clean i = absurd (clean i)
  reconcile_group-FailsWell name broken s clean i = absurd (clean i)
  reconcile_group-FailsWell name (got ng) s clean i =
      judge-FailsWell ng (launched_node_claim ng w.cached_claim) s clean i

  -- A reconcile asks for a NodeClaim's deletion only when uncached reads confirm that the claim is this
  -- provider's, launched and unregistered and that its group is unsynced and refused; and once the claim
  -- is deleted, the group's flavor is unavailable for the quota backoff.
  pub reconcile-FailsWell :
      (name : Text) (s : Follow)
      → IsIn (deletes_claim x) (reconcile sizing w name s).1.effects
      → FailsWell (reconcile sizing w name s)
  unfolding reconcile
  reconcile-FailsWell name s i =
      reconcile_group-FailsWell name w.cached_group (record s { effects = [] }) (λ j. j) i
