-- ===== src/Provider/Acceptance/Reads.antt =====
-- pkg/providers/nodegroup/nodegroup.go, `waitForAcceptance`: one turn of the poll's condition
-- function, on every read.
use karpenter_provider_cleve.Base.{
  ℕ, ◌≡◌, ◌≢◌, refl, sym, ◌∙◌, subst, ◌⊎◌, inl, inr, true, false, Option, none, some, Text,
  text_eq_iff, is_some, Bool-cases, Option-cases, arith,
}
use karpenter_provider_cleve.Api.NodeGroup.{NodeGroup, transient_failure}
use karpenter_provider_cleve.Provider.Backoff.{Catalogue}
use karpenter_provider_cleve.Provider.Effects.{vanished, failed}
use karpenter_provider_cleve.Provider.Acceptance.{
  Read, found, missing, interrupted, broken, PollState, Turn, again, done, stop, expire,
  is_replaced, note_transient, poll_turn, quota_refused, decide, refused_or_pending,
}
use karpenter_provider_cleve.Provider.Acceptance.Verdict.{
  IsLostCause, IsTaken, IsPending, Refused, Decides, decide-Decides,
}

-- The group that a read found is the one looked for: any, or the one that was adopted.
abbrev pub IsSame : Option NodeGroup → NodeGroup → Type 0
IsSame observed ng = (observed ≡ none) ⊎ ((o : NodeGroup) × (observed ≡ some o) × (o.uid ≡ ng.uid))

-- A group of another uid stands under the name.
abbrev pub IsReplaced : Option NodeGroup → NodeGroup → Type 0
IsReplaced observed ng = (o : NodeGroup) × (observed ≡ some o) × (o.uid ≢ ng.uid)

-- What a turn that found the group remembers: that it was seen, and its transient failure or else the
-- earlier one.
abbrev pub Remembers : NodeGroup → PollState → PollState → Type 0
Remembers ng s t =
    (t.seen ≡ true)
    × (((transient_failure ng ≡ none) × (t.retried ≡ s.retried))
        ⊎ ((f : Text × Text) × (transient_failure ng ≡ some f) × (t.retried ≡ some f)))

-- Nothing is recorded, counted or deleted.
abbrev pub IsQuiet : PollState → PollState → Type 0
IsQuiet s t = (t.backoff ≡ s.backoff) × (t.effects ≡ s.effects)

module _ (sizing : Catalogue) (name : Text) (observed : Option NodeGroup) (now : ℕ) where
  -- The reads on which a launch is given up because its group is gone.
  abbrev pub IsGone : Read → PollState → PollState → Type 0
  IsGone read s t =
      ((read ≡ missing) × (s.seen ≡ true) × (t ≡ s))
      ⊎ ((ng : NodeGroup) × (read ≡ found ng)
          × ((IsReplaced observed ng × (t.seen ≡ true) × (t.retried ≡ s.retried))
              ⊎ (IsSame observed ng × (is_some ng.deleted ≡ true) × Remembers ng s t)))

  -- What lies behind each end of a turn: the read, and the state that the turn leaves.
  abbrev pub Turns : Read → PollState → Turn → Type 0
  Turns read s (again t) =
      ((read ≡ missing) × (s.seen ≡ false) × (t ≡ s))
      ⊎ ((ng : NodeGroup) × (read ≡ found ng)
          × IsSame observed ng
          × IsPending ng
          × Remembers ng s t
          × IsQuiet s t)
  Turns read s (done accepted t) =
      (ng : NodeGroup) × (read ≡ found ng)
      × IsSame observed ng
      × IsTaken accepted ng
      × Remembers ng s t
      × IsQuiet s t
  Turns read s (stop error t) =
      ((error ≡ vanished name) × IsGone read s t × IsQuiet s t)
      ⊎ (((m : Text) × (read ≡ broken m) × (error ≡ failed m) × (t ≡ s))
          ⊎ ((ng : NodeGroup) × (read ≡ found ng)
              × IsSame observed ng
              × IsLostCause ng
              × Remembers ng s t
              × Refused sizing now name ng s error t))
  Turns read s (expire t) = (read ≡ interrupted) × (t ≡ s)

  note_transient-Remembers :
      (ng : NodeGroup) (s : PollState)
      → Remembers ng s (note_transient ng (record s { seen = true }))
        × IsQuiet s (note_transient ng (record s { seen = true }))
  unfolding note_transient
  note_transient-Remembers ng s = ground arith

  same : (ng : NodeGroup) → is_replaced observed ng ≡ false → IsSame observed ng
  unfolding is_replaced
  same ng h = elim (Option-cases observed) [
    | inl p ↦ inl p
    | inr (o, p) ↦ inr (o, p, (text_eq_iff o.uid ng.uid).0 (ground (arith, rw p at h)))
  ]

  replaced : (ng : NodeGroup) → is_replaced observed ng ≡ true → IsReplaced observed ng
  unfolding is_replaced
  replaced ng h = elim (Option-cases observed) [
    | inl p ↦ cc (rw p at h)
    | inr (o, p) ↦ (o, p, λ e. ground (arith, text_eq_iff o.uid ng.uid, rw p at h))
  ]

  -- The state with which a turn ends.
  state_of : Turn → PollState
  state_of (again t) = t
  state_of (done accepted t) = t
  state_of (stop error t) = t
  state_of (expire t) = t

  decide_keeps :
      (ng : NodeGroup) (s : PollState)
      → ((state_of (decide sizing now name ng s)).seen ≡ s.seen)
        × ((state_of (decide sizing now name ng s)).retried ≡ s.retried)
  unfolding decide quota_refused refused_or_pending state_of
  decide_keeps ng s = ground arith

  turned :
      (ng : NodeGroup) (s u : PollState) (t : Turn)
      → IsSame observed ng
      → Remembers ng s u
      → IsQuiet s u
      → (state_of t).seen ≡ u.seen
      → (state_of t).retried ≡ u.retried
      → Decides sizing now name ng u t
      → Turns (found ng) s t
  unfolding state_of
  turned ng s u (again t) ours (seen, retry) quiet p q (h, e) = inr (
    ng,
    refl,
    ours,
    h,
    subst (Remembers ng s) (sym e) (seen, retry),
    subst (IsQuiet s) (sym e) quiet,
  )
  turned ng s u (done accepted t) ours (seen, retry) quiet p q (h, e) = (
    ng,
    refl,
    ours,
    h,
    subst (Remembers ng s) (sym e) (seen, retry),
    subst (IsQuiet s) (sym e) quiet,
  )
  turned ng s u (stop error t) ours remembers quiet p q (inl (gone, v, e)) = inl (
    v,
    inr (ng, refl, inr (ours, gone, subst (Remembers ng s) (sym e) remembers)),
    subst (IsQuiet s) (sym e) quiet,
  )
  turned ng s u (stop error t) ours (seen, retry) (b, e) p q (inr (lost, r)) =
      inr (inr (ng, refl, ours, lost, (p ∙ seen, rw (q) retry), rw (← b, ← e) r))
  turned ng s u (expire t) ours remembers quiet p q h = absurd h

  -- One turn of the poll, on every read. A missing group is gone if it was seen, and waited for if it
  -- was not; an interrupted read closes the window; a broken one fails the launch. A group that was
  -- found is marked as seen. If it is not the adopted one it is gone; if it is, its transient failure
  -- is remembered before its state decides: it is going away, taken, refused or read again. Only a
  -- refusal records, counts or deletes anything.
  pub poll_turn-Turns :
      (read : Read) (s : PollState) → Turns read s (poll_turn sizing name observed now read s)
  unfolding poll_turn
  poll_turn-Turns missing s = elim (Bool-cases s.seen) [
    | inl e ↦ simp e (inl (refl, inl (refl, refl, refl), (refl, refl)))
    | inr e ↦ simp e (inl (refl, refl, refl))
  ]
  poll_turn-Turns interrupted s = (refl, refl)
  poll_turn-Turns (broken m) s = inr (inl (m, refl, refl, refl))
  poll_turn-Turns (found ng) s = elim (Bool-cases (is_replaced observed ng)) [
    | inl e ↦ rw e (inl (refl, inr (ng, refl, inl (replaced ng e, refl, refl)), (refl, refl)))
    | inr e ↦ rw e (
        let u = note_transient ng (record s { seen = true }) in
        let k = note_transient-Remembers ng s in
        let kept = decide_keeps ng u in
        turned ng s u _ (same ng e) k.0 k.1 kept.0 kept.1 (decide-Decides sizing now name ng u))
  ]
