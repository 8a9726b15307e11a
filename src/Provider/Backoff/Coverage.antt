-- ===== src/Provider/Backoff/Coverage.antt =====
-- Which flavors `Unavailable` reports and `quotaFastFail` refuses, and for how long.
use mathlib.Core.Option.{some-injective}
use karpenter_provider_cleve.Base.{
  ℕ, ◌+◌, ◌*◌, ◌≤◌, ◌<◌, ◌≡◌, refl, sym, subst, ◌∙◌, text_eq_refl, ◌≢◌, ◌↔◌, ◌⊎◌, inl, inr, true,
  false, Option, some, Text, text_eq_iff, arith, IsIn, IsIn-insert, IsIn-insert_self, Bool-cases,
  Option-cases, is_some,
}
use karpenter_provider_cleve.Flavor.Sizing.{Sizing}
use karpenter_provider_cleve.Provider.Backoff.{
  QuotaRejection, Catalogue, Backoff, FastFail, coverage, covers_size, quota_rejection_covering,
  is_held, unavailable, quota_fast_fail, record_quota_rejection, remaining, second, quota_backoff,
  next_seq,
}
use karpenter_provider_cleve.Provider.Backoff.Order.{InForce, covering-greatest, covering-none}

module _ (now : ℕ) (flavor : Text) (size : Option Sizing) (b : Backoff) where
  -- A rejection in force is enough for one to be found.
  covering-is_some :
      (e : Text × QuotaRejection) (end : ℕ)
      → IsIn e b.quota_rejections
      → InForce now flavor size e end
      → is_some (quota_rejection_covering now flavor size b) ≡ true
  covering-is_some e end i h = elim (Option-cases (quota_rejection_covering now flavor size b)) [
    | inl p ↦ absurd (covering-none now flavor size b p e end i h)
    | inr (c, p) ↦ rw p
  ]

  -- And what is found is one.
  covering-InForce :
      is_some (quota_rejection_covering now flavor size b) ≡ true
      → (e : Text × QuotaRejection) × (end : ℕ) × IsIn e b.quota_rejections
        × InForce now flavor size e end
  covering-InForce h = elim (Option-cases (quota_rejection_covering now flavor size b)) [
    | inl p ↦ absurd (ground arith)
    | inr (c, p) ↦
        let (i, f, _) = covering-greatest now flavor size b c p in
        ((c.by, c.rejection), c.until, i, f)
  ]

module _ (sizing : Catalogue) (now : ℕ) (flavor : Text) (b : Backoff) where
  -- Some quota rejection covers the flavor and is not over.
  abbrev pub IsCovered : Type 0
  IsCovered =
      (e : Text × QuotaRejection) × (end : ℕ) × IsIn e b.quota_rejections
      × InForce now flavor (sizing flavor) e end

  unavailable_of :
      (is_held now flavor b ≡ true) ⊎ IsCovered → unavailable sizing now flavor b ≡ true
  unfolding unavailable
  unavailable_of (inl h) = ground arith
  unavailable_of (inr (e, end, i, f)) =
      ground (arith, covering-is_some now flavor (sizing flavor) b e end i f)

  held_or_covered :
      unavailable sizing now flavor b ≡ true → (is_held now flavor b ≡ true) ⊎ IsCovered
  unfolding unavailable
  held_or_covered h = elim (Bool-cases (is_held now flavor b)) [
    | inl held ↦ inl held
    | inr free ↦ inr (covering-InForce now flavor (sizing flavor) b (ground arith))
  ]

  -- A flavor is unavailable exactly while it is held out after a refusal or some quota rejection
  -- covers it and is not over.
  pub unavailable_iff :
      (unavailable sizing now flavor b ≡ true) ↔ ((is_held now flavor b ≡ true) ⊎ IsCovered)
  unavailable_iff = (held_or_covered, unavailable_of)

  fast_fail-covering :
      (later : ℕ)
      → is_some (quota_fast_fail sizing now later flavor b)
        ≡ is_some (quota_rejection_covering now flavor (sizing flavor) b)
  unfolding quota_fast_fail
  fast_fail-covering later =
      elim (Option-cases (quota_rejection_covering now flavor (sizing flavor) b)) [
        | inl p ↦ rw (p, quota_fast_fail) refl
        | inr (c, p) ↦ rw (p, quota_fast_fail) refl
      ]

  -- `Create` refuses a launch without a call exactly while a quota rejection covers its flavor.
  pub quota_fast_fail_iff :
      (later : ℕ) → (is_some (quota_fast_fail sizing now later flavor b) ≡ true) ↔ IsCovered
  quota_fast_fail_iff later = (
    λ h. covering-InForce now flavor (sizing flavor) b (sym (fast_fail-covering later) ∙ h),
    λ (e, end, i, f).
        fast_fail-covering later ∙ covering-is_some now flavor (sizing flavor) b e end i f,
  )

remaining_bounds :
    (now until at : ℕ)
    → at ≤ now
    → until ≤ at + 2 * quota_backoff
    → (second ≤ remaining now until) × (remaining now until ≤ 2 * quota_backoff)
unfolding remaining
remaining_bounds now until at h l = ground arith

coverage-le :
    (r : QuotaRejection) (rejected flavor : Text) (size : Option Sizing) (end : ℕ)
    → coverage r rejected flavor size ≡ some end
    → end ≤ r.at + 2 * quota_backoff
unfolding coverage
coverage-le r rejected flavor size end h = ground arith

-- Every rejection was recorded by `now`.
abbrev pub IsPast : ℕ → Backoff → Type 0
IsPast now b = (e : Text × QuotaRejection) → IsIn e b.quota_rejections → e.1.at ≤ now

-- A launch that is refused without a call is refused for its own flavor, on account of a recorded
-- rejection that covers it, and for at least a second and at most twice the backoff more.
pub quota_fast_fail_bounds :
    (sizing : Catalogue) (now later : ℕ) (flavor : Text) (b : Backoff) (x : FastFail)
    → now ≤ later
    → IsPast now b
    → quota_fast_fail sizing now later flavor b ≡ some x
    → (x.flavor ≡ flavor)
      × (second ≤ x.lasts)
      × (x.lasts ≤ 2 * quota_backoff)
      × ((r : QuotaRejection) × IsIn (x.rejected, r) b.quota_rejections × (r.message ≡ x.message))
unfolding quota_fast_fail
quota_fast_fail_bounds sizing now later flavor b x on past h =
    elim (Option-cases (quota_rejection_covering now flavor (sizing flavor) b)) [
      | inl p ↦ absurd (ground arith)
      | inr (c, p) ↦
          let (i, f, _) = covering-greatest now flavor (sizing flavor) b c p in
          let r =
            remaining_bounds later c.until c.rejection.at (let was = past _ i in omega arith)
              (coverage-le c.rejection c.by flavor (sizing flavor) c.until f.0) in
          subst
            (λ y.
              (y.flavor ≡ flavor)
              × (second ≤ y.lasts)
              × (y.lasts ≤ 2 * quota_backoff)
              × ((q : QuotaRejection) × IsIn (y.rejected, q) b.quota_rejections
                  × (q.message ≡ y.message)))
            (some-injective _ _ (rw (p, quota_fast_fail) at h))
            (refl, r.0, r.1, (c.rejection, i, refl))
    ]

module _ (sizing : Catalogue) (at : ℕ) (flavor message : Text) (b : Backoff) where
  recorded : QuotaRejection
  recorded = record {
    at = at;
    message = message;
    seq = next_seq b.quota_rejection_seq;
    size = sizing flavor;
  }

  -- A quota rejection leaves the hold-outs alone.
  unheld :
      (now : ℕ)
      → is_held now flavor (record_quota_rejection sizing at flavor message b)
        ≡ is_held now flavor b
  unfolding record_quota_rejection is_held
  unheld now = refl

  recorded-IsIn :
      IsIn (flavor, recorded) (record_quota_rejection sizing at flavor message b).quota_rejections
  unfolding record_quota_rejection recorded
  recorded-IsIn = IsIn-insert_self flavor recorded b.quota_rejections

  -- From a quota rejection on, its flavor is unavailable for the backoff, and every other flavor at
  -- least as large for twice as long.
  pub record_quota_rejection-unavailable :
      (now : ℕ) (other : Text)
      → ((other ≡ flavor) × (now < at + quota_backoff))
        ⊎ ((other ≢ flavor)
            × (covers_size (sizing other) (sizing flavor) ≡ true)
            × (now < at + 2 * quota_backoff))
      → unavailable sizing now other (record_quota_rejection sizing at flavor message b) ≡ true
  unfolding coverage recorded
  record_quota_rejection-unavailable now other (inl (same, early)) =
      (unavailable_iff sizing now other _).1 (
        inr (
          (flavor, recorded),
          at + quota_backoff,
          recorded-IsIn,
          (ground (arith, text_eq_iff flavor other), early),
        ))
  record_quota_rejection-unavailable now other (inr (differ, large, early)) =
      (unavailable_iff sizing now other _).1 (
        inr (
          (flavor, recorded),
          at + 2 * quota_backoff,
          recorded-IsIn,
          (ground (arith, text_eq_iff flavor other), early),
        ))

  only_recorded :
      (now : ℕ)
      → at + quota_backoff ≤ now
      → ((e : Text × QuotaRejection) (end : ℕ)
          → IsIn e b.quota_rejections
          → e.0 ≢ flavor
          → InForce now flavor (sizing flavor) e end
          → ⊥)
      → IsCovered sizing now flavor (record_quota_rejection sizing at flavor message b)
      → ⊥
  unfolding record_quota_rejection coverage
  only_recorded now late others (e, end, i, f) =
      elim (IsIn-insert flavor _ e b.quota_rejections i) [
        | inl p ↦ ground (arith, text_eq_refl flavor, f.0, f.1)
        | inr (j, differ) ↦ others e end j (λ same. ground (arith, text_eq_iff e.0 flavor)) f
      ]

  -- The rejected flavor is retried first: between the two ends, if nothing else keeps it, it is
  -- available again while every other flavor at least as large is not.
  pub retried_first :
      (now : ℕ) (other : Text)
      → at + quota_backoff ≤ now
      → now < at + 2 * quota_backoff
      → is_held now flavor b ≡ false
      → ((e : Text × QuotaRejection) (end : ℕ)
          → IsIn e b.quota_rejections
          → e.0 ≢ flavor
          → InForce now flavor (sizing flavor) e end
          → ⊥)
      → other ≢ flavor
      → covers_size (sizing other) (sizing flavor) ≡ true
      → let after = record_quota_rejection sizing at flavor message b in
        (unavailable sizing now flavor after ≡ false) × (unavailable sizing now other after ≡ true)
  retried_first now other late early free others differ large = (
    elim (Bool-cases
        (unavailable sizing now flavor (record_quota_rejection sizing at flavor message b))) [
          | inr h ↦ h
          | inl h ↦ elim (held_or_covered sizing now flavor _ h) [
            | inl held ↦ cc (sym (unheld now) ∙ held, free)
            | inr c ↦ absurd (only_recorded now late others c)
          ]
        ],
    record_quota_rejection-unavailable now other (inr (differ, large, early)),
  )
