-- ===== src/Provider/Backoff/Order.antt =====
-- `quotaRejectionCovering` walks a Go map, whose order is not fixed: what it finds is a greatest
-- element, so the order does not matter.
use mathlib.Core.Bool.{false≢true}
use mathlib.Core.Option.{some-injective}
use mathlib.Core.Option
use mathlib.Core.Path.{ap₂}
use karpenter_provider_cleve.Base.{
  ℕ, ◌<◌, ◌≡◌, refl, sym, ap, subst, ◌∙◌, ◌↔◌, ◌⊎◌, inl, inr, true, false, ◌&&◌, Option, none, some,
  [], ◌∷◌, Text, text_lt, text_lt_total, text_lt_asymm, text_lt_chain, arith, IsIn, Bool-cases,
  Option-cases, Map, ltb,
}
use karpenter_provider_cleve.Flavor.Sizing.{Sizing}
use karpenter_provider_cleve.Provider.Backoff.{
  QuotaRejection, Covering, coverage, prefers, consider, covering_from, quota_rejection_covering,
  Backoff,
}

abbrev pub answer : Covering → Text × ℕ
answer c = (c.by, c.until)

-- The end `end` of a rejection falls short of the chosen one, or ties with it under a name that is
-- not smaller.
abbrev pub NoBetter : Covering → Text → ℕ → Type 0
NoBetter c rejected end = (end < c.until) ⊎ ((end ≡ c.until) × (text_lt rejected c.by ≡ false))

NoBetter-trans :
    (c d : Covering) (r : Text) (end : ℕ)
    → NoBetter c d.by d.until
    → NoBetter d r end
    → NoBetter c r end
NoBetter-trans c d r end (inl h) (inl k) = inl (omega arith)
NoBetter-trans c d r end (inl h) (inr k) = inl (omega arith)
NoBetter-trans c d r end (inr h) (inl k) = inl (omega arith)
NoBetter-trans c d r end (inr h) (inr k) =
    inr (k.0 ∙ h.0, ground (arith, text_lt_chain d.by r c.by, k.1, h.1))

prefers-NoBetter :
    (c : Covering) (r : Text) (end : ℕ) → prefers (some c) r end ≡ false → NoBetter c r end
unfolding prefers
prefers-NoBetter c r end h = ground arith

prefers-NoBetter_new :
    (c : Covering) (r : Text) (q : QuotaRejection) (end : ℕ)
    → prefers (some c) r end ≡ true
    → NoBetter (record { by = r; rejection = q; until = end }) c.by c.until
unfolding prefers
prefers-NoBetter_new c r q end h = ground (arith, text_lt_asymm r c.by)

module _ (now : ℕ) (flavor : Text) (size : Option Sizing) where
  -- The entry covers the flavor until `end`, which is not over.
  abbrev pub InForce : Text × QuotaRejection → ℕ → Type 0
  InForce e end = (coverage e.1 e.0 flavor size ≡ some end) × (now < end)

  -- What one turn of the loop does.
  abbrev Turn : Text × QuotaRejection → Option Covering → Type 0
  Turn e best =
      ((consider now flavor size e best ≡ best)
        × ((end : ℕ) → InForce e end → prefers best e.0 end ≡ false))
      ⊎ ((end : ℕ) × InForce e end
          × (prefers best e.0 end ≡ true)
          × (consider now flavor size e best
              ≡ some (record { by = e.0; rejection = e.1; until = end })))

  turn : (e : Text × QuotaRejection) (best : Option Covering) → Turn e best
  unfolding consider
  turn e best = elim (Option-cases (coverage e.1 e.0 flavor size)) [
    | inl no_cover ↦ inl (ground arith, λ end h. ground (arith, h.0))
    | inr (end, covers) ↦ elim (Bool-cases (ltb now end && prefers best e.0 end)) [
      | inl takes ↦ inr (end, ground arith, ground arith, ground arith)
      | inr keeps ↦ inl (ground arith, λ until h. ground (arith, h.0, h.1))
    ]
  ]

  -- What the walk promises of its result, from the best so far.
  abbrev Found : Map QuotaRejection → Option Covering → Option Covering → Type 0
  Found m best none =
      (best ≡ none) × ((e : Text × QuotaRejection) (end : ℕ) → IsIn e m → InForce e end → ⊥)
  Found m best (some c) =
      ((best ≡ some c) ⊎ (IsIn (c.by, c.rejection) m × InForce (c.by, c.rejection) c.until))
      × ((d : Covering) → best ≡ some d → NoBetter c d.by d.until)
      × ((e : Text × QuotaRejection) (end : ℕ) → IsIn e m → InForce e end → NoBetter c e.0 end)

  InForce-unique : (e : Text × QuotaRejection) (a b : ℕ) → InForce e a → InForce e b → a ≡ b
  InForce-unique e a b h k = ground (arith, h.0, k.0)

  keep_none :
      (e : Text × QuotaRejection) (m : Map QuotaRejection) (best : Option Covering)
      → ((end : ℕ) → InForce e end → prefers best e.0 end ≡ false)
      → best ≡ none
      → ((x : Text × QuotaRejection) (end : ℕ) → IsIn x m → InForce x end → ⊥)
      → Found (e ∷ m) best none
  unfolding prefers
  keep_none e m none worse b all = (
    refl,
    λ x end i h. elim i [
      | inl p ↦ cc (worse end (subst (λ y. InForce y end) (sym p) h))
      | inr i' ↦ all x end i' h
    ],
  )
  keep_none e m (some d) worse b all = cc

  keep_some :
      (e : Text × QuotaRejection) (m : Map QuotaRejection) (best : Option Covering) (c : Covering)
      → ((end : ℕ) → InForce e end → prefers best e.0 end ≡ false)
      → Found m best (some c)
      → Found (e ∷ m) best (some c)
  unfolding prefers
  keep_some e m none c worse (orig, worst, all) = (
    elim orig [ inl p ↦ inl p | inr f ↦ inr (inr f.0, f.1) ],
    worst,
    λ x end i h. elim i [
      | inl p ↦ absurd (false≢true (sym (worse end (subst (λ y. InForce y end) (sym p) h))))
      | inr i' ↦ all x end i' h
    ],
  )
  keep_some e m (some d) c worse (orig, worst, all) = (
    elim orig [ inl p ↦ inl p | inr f ↦ inr (inr f.0, f.1) ],
    worst,
    λ x end i h. elim i [
      | inl p ↦
          subst (λ y. NoBetter c y.0 end) p
            (NoBetter-trans c d e.0 end (worst d refl)
              (prefers-NoBetter d e.0 end (worse end (subst (λ y. InForce y end) (sym p) h))))
      | inr i' ↦ all x end i' h
    ],
  )

  take :
      (e : Text × QuotaRejection) (m : Map QuotaRejection) (best : Option Covering) (c : Covering)
      (end : ℕ)
      → InForce e end
      → prefers best e.0 end ≡ true
      → Found m (some (record { by = e.0; rejection = e.1; until = end })) (some c)
      → Found (e ∷ m) best (some c)
  take e m best c end f pref (orig, worst, all) =
      let new : Covering = record { by = e.0; rejection = e.1; until = end } in
      (
        inr (elim orig [
          | inl p ↦
              subst (λ x. IsIn (x.by, x.rejection) (e ∷ m) × InForce (x.by, x.rejection) x.until)
                (some-injective _ _ p) (inl refl, f)
          | inr g ↦ (inr g.0, g.1)
        ]),
        λ d h.
            NoBetter-trans c new d.by d.until (worst new refl)
              (prefers-NoBetter_new d e.0 e.1 end (subst (λ b. prefers b e.0 end ≡ true) h pref)),
        λ x until i h. elim i [
          | inl p ↦
              subst (λ y. NoBetter c y.0 until) p
                (subst (NoBetter c e.0)
                  (InForce-unique e end until f (subst (λ y. InForce y until) (sym p) h))
                  (worst new refl))
          | inr i' ↦ all x until i' h
        ],
      )

  step :
      (e : Text × QuotaRejection) (m : Map QuotaRejection) (best out : Option Covering)
      → Turn e best
      → Found m (consider now flavor size e best) out
      → Found (e ∷ m) best out
  step e m best none (inl (same, worse)) f = keep_none e m best worse (sym same ∙ f.0) f.1
  step e m best (some c) (inl (same, worse)) f =
      keep_some e m best c worse (subst (λ b. Found m b (some c)) same f)
  step e m best none (inr (end, force, pref, eq)) (empty, all) = cc
  step e m best (some c) (inr (end, force, pref, eq)) f =
      take e m best c end force pref (subst (λ b. Found m b (some c)) eq f)

  found :
      (m : Map QuotaRejection) (best : Option Covering)
      → Found m best (covering_from now flavor size m best)
  unfolding covering_from
  found [] none = (refl, λ e end i h. i)
  found [] (some b) = (
    inl refl,
    λ d h.
        inr
          (ap (λ x. x.until) (sym (some-injective _ _ h)), ground (arith, text_lt_asymm b.by d.by)),
    λ e end i h. elim i [ ],
  )
  found (e ∷ m) best = step e m best _ (turn e best) (found m (consider now flavor size e best))

  NoBetter-antisymm :
      (c d : Covering) → NoBetter c d.by d.until → NoBetter d c.by c.until → answer c ≡ answer d
  NoBetter-antisymm c d (inl h) (inl k) = absurd (omega arith)
  NoBetter-antisymm c d (inl h) (inr k) = absurd (omega arith)
  NoBetter-antisymm c d (inr h) (inl k) = absurd (omega arith)
  NoBetter-antisymm c d (inr h) (inr k) =
      ap₂ {C = Text × ℕ} (λ x y. (x, y)) (text_lt_total c.by d.by k.1 h.1) k.0

  chosen :
      (m : Map QuotaRejection) (c : Covering)
      → Found m none (some c)
      → IsIn (c.by, c.rejection) m × InForce (c.by, c.rejection) c.until
  chosen m c (inl p, worst, all) = cc
  chosen m c (inr f, worst, all) = f

  agree :
      (m n : Map QuotaRejection) (o p : Option Covering)
      → ((e : Text × QuotaRejection) → IsIn e m → IsIn e n)
      → ((e : Text × QuotaRejection) → IsIn e n → IsIn e m)
      → Found m none o
      → Found n none p
      → Option.map answer o ≡ Option.map answer p
  agree m n none none to fro f g = refl
  agree m n none (some d) to fro f g =
      let (i, h) = chosen n d g in absurd (f.1 _ d.until (fro _ i) h)
  agree m n (some c) none to fro f g =
      let (i, h) = chosen m c f in absurd (g.1 _ c.until (to _ i) h)
  agree m n (some c) (some d) to fro f g =
      let (i, h) = chosen m c f in
      let (j, k) = chosen n d g in
      ap some (NoBetter-antisymm c d (f.2 _ d.until (fro _ j) k) (g.2 _ c.until (to _ i) h))

  -- The rejection that `quotaRejectionCovering` returns is in the map and in force, and no other one in
  -- force keeps the flavor unavailable for longer, nor as long under a smaller name.
  pub covering-greatest :
      (b : Backoff) (c : Covering)
      → quota_rejection_covering now flavor size b ≡ some c
      → IsIn (c.by, c.rejection) b.quota_rejections
        × InForce (c.by, c.rejection) c.until
        × ((e : Text × QuotaRejection) (end : ℕ)
            → IsIn e b.quota_rejections
            → InForce e end
            → NoBetter c e.0 end)
  unfolding quota_rejection_covering
  covering-greatest b c h =
      let f = subst (Found b.quota_rejections none) h (found b.quota_rejections none) in
      let (i, k) = chosen b.quota_rejections c f in (i, k, f.2)

  -- Nothing is returned only when no rejection is in force.
  pub covering-none :
      (b : Backoff)
      → quota_rejection_covering now flavor size b ≡ none
      → (e : Text × QuotaRejection) (end : ℕ) → IsIn e b.quota_rejections
      → InForce e end
      → ⊥
  unfolding quota_rejection_covering
  covering-none b h = (subst (Found b.quota_rejections none) h (found b.quota_rejections none)).1

  -- Whatever order the rejections are walked in, the flavor named and the end are the same.
  pub covering_any_order :
      (b b' : Backoff)
      → ((e : Text × QuotaRejection) → IsIn e b.quota_rejections ↔ IsIn e b'.quota_rejections)
      → Option.map answer (quota_rejection_covering now flavor size b)
        ≡ Option.map answer (quota_rejection_covering now flavor size b')
  unfolding quota_rejection_covering
  covering_any_order b b' same =
      agree b.quota_rejections b'.quota_rejections _ _ (λ e. (same e).0) (λ e. (same e).1)
        (found b.quota_rejections none) (found b'.quota_rejections none)
