-- ===== src/Controllers/GarbageCollection/Vanished.antt =====
-- Which NodeClaims a sweep writes off: exactly those whose group vanished.
use karpenter_provider_cleve.Base.{
  ◌-◌, ◌≤◌, ◌≡◌, refl, sym, ap, subst, ◌↔◌, ◌⊎◌, inl, inr, true, false, some, List, [], ◌∷◌, Text,
  arith, IsIn, IsIn-append, Bool-cases, is_some, ltb,
}
use karpenter_provider_cleve.Api.NodeGroup.{NodeGroup}
use karpenter_provider_cleve.Api.NodeClaim.{NodeClaim}
use karpenter_provider_cleve.Provider.Delete.{DeleteReply, rejected}
use karpenter_provider_cleve.Provider.Effects.{deletes_claim}
use karpenter_provider_cleve.Controllers.GarbageCollection.{
  World, Sweep, missing, min_age, reap, is_clever_class, group_name_of, has_group, claim_verdict,
  reap_claim, sweep_claim, sweep_claims, reap_vanished_node_claims,
}
use karpenter_provider_cleve.Controllers.GarbageCollection.Orphans.{presence-cases, verdict-cases}

-- A claim to write off: it is the provider's, old enough, launched and not registered, and its group is
-- neither listed, managed or not, nor there when the API server itself is asked.
pub record IsVanished (w : World) (groups : List NodeGroup) (claim : NodeClaim) : Type 0 where
  pub ours : is_clever_class claim.class_ref ≡ true
  pub stays : is_some claim.deleted ≡ false
  pub old : min_age ≤ w.claim_now claim.name - claim.created
  pub launched : claim.launched ≡ true
  pub unregistered : claim.registered ≡ false
  pub unlisted : has_group groups (group_name_of claim) ≡ false
  pub absent_upstream : w.group_presence (group_name_of claim) ≡ missing

module _ (w : World) (groups : List NodeGroup) where
  claim_verdict-IsVanished :
      (claim : NodeClaim) → claim_verdict w groups claim ≡ reap → IsVanished w groups claim
  unfolding claim_verdict
  claim_verdict-IsVanished claim h = elim (Bool-cases (is_clever_class claim.class_ref)) [
    | inr foreign ↦ cc (rw (foreign, claim_verdict) at h)
    | inl ours ↦ elim (Bool-cases (is_some claim.deleted)) [
      | inl going ↦ cc (rw (ours, going, claim_verdict) at h)
      | inr stays ↦ elim (Bool-cases (ltb (w.claim_now claim.name - claim.created) min_age)) [
        | inl young ↦ cc (rw (ours, stays, young, claim_verdict) at h)
        | inr old ↦ elim (Bool-cases claim.launched) [
          | inr waiting ↦ cc (simp (ours, stays, old, waiting, claim_verdict) at h)
          | inl up ↦ elim (Bool-cases claim.registered) [
            | inl in_use ↦ cc (simp (ours, stays, old, up, in_use, claim_verdict) at h)
            | inr unregistered ↦ elim (Bool-cases (has_group groups (group_name_of claim))) [
              | inl listed ↦
                  cc (simp (ours, stays, old, up, unregistered, listed, claim_verdict) at h)
              | inr unlisted ↦ elim (presence-cases (w.group_presence (group_name_of claim))) [
                | inl p ↦
                    cc (simp (ours, stays, old, up, unregistered, unlisted, p, claim_verdict) at h)
                | inr (inr p) ↦
                    cc (simp (ours, stays, old, up, unregistered, unlisted, p, claim_verdict) at h)
                | inr (inl p) ↦ record {
                  ours = ours;
                  stays = stays;
                  old = ground arith;
                  launched = up;
                  unregistered = unregistered;
                  unlisted = unlisted;
                  absent_upstream = p;
                }
              ]
            ]
          ]
        ]
      ]
    ]
  ]

  IsVanished-claim_verdict :
      (claim : NodeClaim) → IsVanished w groups claim → claim_verdict w groups claim ≡ reap
  unfolding claim_verdict
  IsVanished-claim_verdict claim v =
      let old : ltb (w.claim_now claim.name - claim.created) min_age ≡ false =
        ground (arith, v.old) in
      ground
        (arith, old, v.ours, v.stays, v.launched, v.unregistered, v.unlisted, v.absent_upstream)

  module _ (x : Text) where
    reap_claim-deletes_claim :
        (claim : NodeClaim) (reply : DeleteReply) (s : Sweep)
        → IsIn (deletes_claim x) (reap_claim w claim reply s).effects
          ↔ (IsIn (deletes_claim x) s.effects ⊎ (claim.name ≡ x))
    unfolding reap_claim
    reap_claim-deletes_claim claim (rejected m) s = (
      λ i. elim ((IsIn-append _ s.effects _).0 i) [
        | inl j ↦ inl j
        | inr (inl e) ↦ inr cc
        | inr (inr j) ↦ elim j [ ]
      ],
      λ h.
          (IsIn-append _ s.effects _).1
            (elim h [ inl j ↦ inl j | inr e ↦ inr (inl (ap deletes_claim e)) ]),
    )
    reap_claim-deletes_claim claim _ s = (
      λ i. elim ((IsIn-append _ s.effects _).0 i) [
        | inl j ↦ inl j
        | inr (inl e) ↦ inr cc
        | inr (inr j) ↦ ground arith
      ],
      λ h.
          (IsIn-append _ s.effects _).1
            (elim h [ inl j ↦ inl j | inr e ↦ inr (inl (ap deletes_claim e)) ]),
    )

    untouched :
        (claim : NodeClaim) (s : Sweep)
        → (IsVanished w groups claim → ⊥)
        → IsIn (deletes_claim x) s.effects
          ↔ (IsIn (deletes_claim x) s.effects ⊎ ((claim.name ≡ x) × IsVanished w groups claim))
    untouched claim s never = (inl, λ h. elim h [ inl i ↦ i | inr (_, v) ↦ absurd (never v) ])

    sweep_claim-deletes_claim :
        (claim : NodeClaim) (s : Sweep)
        → IsIn (deletes_claim x) (sweep_claim w groups claim s).effects
          ↔ (IsIn (deletes_claim x) s.effects ⊎ ((claim.name ≡ x) × IsVanished w groups claim))
    unfolding sweep_claim
    sweep_claim-deletes_claim claim s = elim (verdict-cases (claim_verdict w groups claim)) [
      | inl p ↦
          rw (p, sweep_claim)
            (let c = reap_claim-deletes_claim claim (w.claim_delete claim.name) s in
              (
                λ i. elim (c.0 i) [
                  | inl j ↦ inl j
                  | inr e ↦ inr (e, claim_verdict-IsVanished claim p)
                ],
                λ h. c.1 (elim h [ inl j ↦ inl j | inr (e, _) ↦ inr e ]),
              ))
      | inr (inl p) ↦
          rw (p, sweep_claim) (untouched claim s (λ v. cc (IsVanished-claim_verdict claim v)))
      | inr (inr (inl p)) ↦
          rw (p, sweep_claim) (untouched claim s (λ v. cc (IsVanished-claim_verdict claim v)))
      | inr (inr (inr (n, p))) ↦
          rw (p, sweep_claim) (untouched claim s (λ v. cc (IsVanished-claim_verdict claim v)))
    ]

    -- Among the claims there is a vanished one of the name.
    abbrev pub HasVanished : List NodeClaim → Type 0
    HasVanished claims = (c : NodeClaim) × IsIn c claims × (c.name ≡ x) × IsVanished w groups c

    -- The first phase of a sweep asks for a NodeClaim's deletion exactly when the claim is this
    -- provider's, launched, unregistered, two minutes old and without a group, listed or upstream; no
    -- failure on another claim shields it.
    pub reap_vanished_iff :
        (claims : List NodeClaim) (s : Sweep)
        → IsIn (deletes_claim x) (reap_vanished_node_claims w claims (some groups) s).effects
          ↔ (IsIn (deletes_claim x) s.effects ⊎ HasVanished claims)
    unfolding reap_vanished_node_claims sweep_claims
    reap_vanished_iff [] s = (inl, λ h. elim h [ inl i ↦ i | inr (c, i, _, _) ↦ elim i [ ] ])
    reap_vanished_iff (claim ∷ claims) s =
        let rest = reap_vanished_iff claims (sweep_claim w groups claim s) in
        let one = sweep_claim-deletes_claim claim s in
        (
          λ i. elim (rest.0 i) [
            | inr (c, j, e, v) ↦ inr (c, inr j, e, v)
            | inl j ↦ elim (one.0 j) [ inl k ↦ inl k | inr (e, v) ↦ inr (claim, inl refl, e, v) ]
          ],
          λ h. rest.1 (elim h [
            | inl i ↦ inl (one.1 (inl i))
            | inr (c, inr j, e, v) ↦ inr (c, j, e, v)
            | inr (c, inl p, e, v) ↦
                inl (one.1 (inr (subst (λ z. (z.name ≡ x) × IsVanished w groups z) (sym p) (e, v))))
          ]),
        )
