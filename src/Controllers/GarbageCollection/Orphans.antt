-- ===== src/Controllers/GarbageCollection/Orphans.antt =====
-- What makes a NodeGroup an orphan, and that the verdict of a sweep is exactly that.
use karpenter_provider_cleve.Base.{
  ◌-◌, ◌≤◌, ◌≡◌, refl, sym, subst, ◌∙◌, ◌⊎◌, inl, inr, false, List, [], ◌∷◌, Text, text_eq,
  text_eq_iff, arith, is_empty, any, any_iff, IsIn, Bool-cases, is_some, ltb,
}
use karpenter_provider_cleve.Api.NodeGroup.{NodeGroup}
use karpenter_provider_cleve.Api.NodeClaim.{NodeClaim}
use karpenter_provider_cleve.Provider.Identity.{node_claim_owners}
use karpenter_provider_cleve.Controllers.GarbageCollection.{
  World, Presence, present, missing, unknown, min_age, Confirmation, alive, gone, unconfirmed,
  any_claim_alive, claim_name_of, has_claim, owner_alive, Verdict, keep, refuse, reap, stuck,
  verdict,
}

pub presence-cases : (p : Presence) → (p ≡ present) ⊎ ((p ≡ missing) ⊎ (p ≡ unknown))
presence-cases present = inl refl
presence-cases missing = inr (inl refl)
presence-cases unknown = inr (inr refl)

pub any_claim_alive-gone :
    (presence : Text → Presence) (checked names : List Text)
    → any_claim_alive presence checked names ≡ gone
    → ((n : Text) → IsIn n checked → presence n ≡ missing)
    → (n : Text) → IsIn n names
    → presence n ≡ missing
unfolding any_claim_alive
any_claim_alive-gone presence checked [] h known n i = elim i [ ]
any_claim_alive-gone presence checked (m ∷ names) h known n i =
    elim (Bool-cases (any (text_eq m) checked)) [
      | inl seen ↦ elim i [
        | inl e ↦
            let (k, j, q) = (any_iff (text_eq m) checked).0 seen in
            known n (subst (λ z. IsIn z checked) (sym ((text_eq_iff m k).0 q) ∙ e) j)
        | inr j ↦
            any_claim_alive-gone presence checked names (rw (seen, any_claim_alive) at h) known n j
      ]
      | inr fresh ↦ elim (presence-cases (presence m)) [
        | inl p ↦ cc (rw (fresh, p, any_claim_alive) at h)
        | inr (inr p) ↦ cc (rw (fresh, p, any_claim_alive) at h)
        | inr (inl p) ↦ elim i [
          | inl e ↦ subst (λ z. presence z ≡ missing) e p
          | inr j ↦
              any_claim_alive-gone presence (m ∷ checked) names
                (rw (fresh, p, any_claim_alive) at h)
                (λ k l. elim l [
                  | inl e ↦ subst (λ z. presence z ≡ missing) e p
                  | inr old ↦ known k old
                ])
                n j
        ]
      ]
    ]

pub any_claim_alive-missing :
    (presence : Text → Presence) (checked names : List Text)
    → ((n : Text) → IsIn n names → presence n ≡ missing)
    → any_claim_alive presence checked names ≡ gone
unfolding any_claim_alive
any_claim_alive-missing presence checked [] h = refl
any_claim_alive-missing presence checked (m ∷ names) h =
    let p = h m (inl refl) in
    let rest = any_claim_alive-missing presence checked names (λ n i. h n (inr i)) in
    let further = any_claim_alive-missing presence (m ∷ checked) names (λ n i. h n (inr i)) in
    ground (arith, p, rest, further)

-- A group to reap: it is not going, it is old enough, a NodeClaim owns it, and no claim that its label
-- or its owners name is listed, nor there when the API server itself is asked.
pub record IsOrphan (w : World) (claims : List NodeClaim) (ng : NodeGroup) : Type 0 where
  pub stays : is_some ng.deleted ≡ false
  pub old : min_age ≤ w.group_now ng.name - ng.created
  pub owned : is_empty (node_claim_owners ng) ≡ false
  pub unlisted :
      (name : Text)
      → IsIn name (claim_name_of ng ∷ node_claim_owners ng)
      → has_claim claims name ≡ false
  pub absent_upstream :
      (name : Text)
      → IsIn name (claim_name_of ng ∷ node_claim_owners ng)
      → w.claim_presence ng.name name ≡ missing

confirmation-cases :
    (c : Confirmation) → (c ≡ gone) ⊎ ((c ≡ alive) ⊎ ((n : Text) × (c ≡ unconfirmed n)))
confirmation-cases gone = inl refl
confirmation-cases alive = inr (inl refl)
confirmation-cases (unconfirmed n) = inr (inr (n, refl))

pub verdict-cases :
    (v : Verdict) → (v ≡ reap) ⊎ ((v ≡ keep) ⊎ ((v ≡ refuse) ⊎ ((n : Text) × (v ≡ stuck n))))
verdict-cases reap = inl refl
verdict-cases keep = inr (inl refl)
verdict-cases refuse = inr (inr (inl refl))
verdict-cases (stuck n) = inr (inr (inr (n, refl)))

module _ (w : World) (claims : List NodeClaim) (ng : NodeGroup) where
  unlisted_owners :
      owner_alive claims (node_claim_owners ng) ≡ false
      → (name : Text) → IsIn name (node_claim_owners ng)
      → has_claim claims name ≡ false
  unfolding owner_alive
  unlisted_owners h name i = elim (Bool-cases (has_claim claims name)) [
    | inr dead ↦ dead
    | inl listed ↦ cc ((any_iff (has_claim claims) (node_claim_owners ng)).1 (name, i, listed))
  ]

  owner_alive-unlisted :
      ((name : Text) → IsIn name (node_claim_owners ng) → has_claim claims name ≡ false)
      → owner_alive claims (node_claim_owners ng) ≡ false
  unfolding owner_alive
  owner_alive-unlisted h = elim (Bool-cases (owner_alive claims (node_claim_owners ng))) [
    | inr dead ↦ dead
    | inl living ↦
        let (name, i, listed) = (any_iff (has_claim claims) (node_claim_owners ng)).0 living in
        cc (h name i)
  ]

  pub verdict-IsOrphan :
      is_some ng.deleted ≡ false → verdict w claims ng ≡ reap → IsOrphan w claims ng
  unfolding verdict
  verdict-IsOrphan stays h =
      let names = claim_name_of ng ∷ node_claim_owners ng in
      elim (Bool-cases (ltb (w.group_now ng.name - ng.created) min_age)) [
        | inl young ↦ cc (rw (young, verdict) at h)
        | inr old ↦ elim (Bool-cases (has_claim claims (claim_name_of ng))) [
          | inl listed ↦ cc (rw (old, listed, verdict) at h)
          | inr unlisted ↦ elim (Bool-cases (is_empty (node_claim_owners ng))) [
            | inl orphaned ↦ cc (rw (old, unlisted, orphaned, verdict) at h)
            | inr owned ↦ elim (Bool-cases (owner_alive claims (node_claim_owners ng))) [
              | inl living ↦ cc (rw (old, unlisted, owned, living, verdict) at h)
              | inr dead ↦
                  elim (confirmation-cases (any_claim_alive (w.claim_presence ng.name) [] names)) [
                    | inr (inl p) ↦ cc (rw (old, unlisted, owned, dead, p, verdict) at h)
                    | inr (inr (n, p)) ↦ cc (rw (old, unlisted, owned, dead, p, verdict) at h)
                    | inl p ↦ record {
                      stays = stays;
                      old = ground arith;
                      owned = owned;
                      unlisted = λ name i. elim i [
                        | inl e ↦ subst (λ z. has_claim claims z ≡ false) e unlisted
                        | inr j ↦ unlisted_owners dead name j
                      ];
                      absent_upstream =
                          any_claim_alive-gone (w.claim_presence ng.name) [] names p
                            (λ n i. elim i [ ]);
                    }
                  ]
            ]
          ]
        ]
      ]

  pub IsOrphan-verdict : IsOrphan w claims ng → verdict w claims ng ≡ reap
  unfolding verdict
  IsOrphan-verdict v =
      let names = claim_name_of ng ∷ node_claim_owners ng in
      let old : ltb (w.group_now ng.name - ng.created) min_age ≡ false = ground (arith, v.old) in
      let unlisted = v.unlisted (claim_name_of ng) (inl refl) in
      let dead = owner_alive-unlisted (λ name i. v.unlisted name (inr i)) in
      let owned = v.owned in
      let p = any_claim_alive-missing (w.claim_presence ng.name) [] names v.absent_upstream in
      rw (old, unlisted, owned, dead, p, verdict) refl
