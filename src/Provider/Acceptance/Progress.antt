-- ===== src/Provider/Acceptance/Progress.antt =====
-- The acceptance poll waits while there is no decision and ends on the first one.
use karpenter_provider_cleve.Base.{
  ℕ, ◌≡◌, refl, sym, ◌∙◌, ◌⊎◌, inl, inr, Bool, true, false, Option, none, some, List, [], ◌∷◌, ◌++◌,
  Text, text_eq_iff, not, arith, is_some, IsIn, subst, ap,
}
use karpenter_provider_cleve.Api.NodeGroup.{
  NodeGroup, is_quota_exceeded, refusal, is_refused, transient_failure,
}
use karpenter_provider_cleve.Provider.Backoff.{Catalogue, Backoff}
use karpenter_provider_cleve.Provider.Backoff.Marks.{run}
use karpenter_provider_cleve.Provider.Effects.{vanished, cancelled}
use karpenter_provider_cleve.Provider.Acceptance.{
  Acceptance, unacknowledged, Read, found, missing, interrupted, broken, Outcome, Poll, PollState,
  again, done, stop, is_replaced, decide, note_transient, poll_turn, poll_from, wait_for_acceptance,
  close_window,
}
use karpenter_provider_cleve.Provider.Acceptance.Verdict.{IsTaken, IsPending}
use karpenter_provider_cleve.Provider.Acceptance.Reads.{IsSame}
use karpenter_provider_cleve.Provider.Acceptance.Outcomes.{starting}

unrefused :
    (ng : NodeGroup) → is_refused ng ≡ false → (is_quota_exceeded ng ≡ false) × (refusal ng ≡ none)
unfolding is_refused
unrefused ng h = ground arith

decide_pending :
    (sizing : Catalogue) (now : ℕ) (name : Text) (ng : NodeGroup) (s : PollState)
    → IsPending ng
    → decide sizing now name ng s ≡ again s
unfolding decide
decide_pending sizing now name ng s h = ground (arith, unrefused ng)

decide_taken :
    (sizing : Catalogue) (now : ℕ) (name : Text) (ng : NodeGroup) (accepted : Acceptance)
    (s : PollState)
    → IsTaken accepted ng
    → decide sizing now name ng s ≡ done accepted s
unfolding decide
decide_taken sizing now name ng accepted s h = ground (arith, unrefused ng)

unreplaced :
    (observed : Option NodeGroup) (ng : NodeGroup)
    → IsSame observed ng
    → is_replaced observed ng ≡ false
unfolding is_replaced
unreplaced observed ng (inl none_before) = rw none_before refl
unreplaced observed ng (inr (o, before, same)) =
    rw before (ap not ((text_eq_iff o.uid ng.uid).1 same))

-- The transient failure to report after a read, and after several: the last one shown.
abbrev pub reported : Option (Text × Text) → Read → Option (Text × Text)
reported r (found ng) = elim (transient_failure ng) [ none ↦ r | some failure ↦ some failure ]
reported r missing = r
reported r interrupted = r
reported r (broken message) = r

abbrev pub last_failure : Option (Text × Text) → List Poll → Option (Text × Text)
last_failure r [] = r
last_failure r (p ∷ ps) = last_failure (reported r p.read) ps

-- How a window closes on the state `s`.
abbrev pub Closes : Bool → PollState → Outcome → Type 0
Closes cancel s o =
    (((cancel ≡ false) × (o.error ≡ none) × (o.retried ≡ s.retried))
      ⊎ ((cancel ≡ true) × (o.error ≡ some cancelled) × (o.retried ≡ none)))
    × (o.accepted ≡ unacknowledged)
    × (o.state.effects ≡ s.effects)

close_window-Closes : (cancel : Bool) (s : PollState) → Closes cancel s (close_window cancel s)
unfolding close_window
close_window-Closes true s = (inr (refl, refl, refl), refl, refl)
close_window-Closes false s = (inl (refl, refl, refl), refl, refl)

module _ (sizing : Catalogue) (parent_cancelled : Bool) (name : Text)
    (observed : Option NodeGroup) where
  -- A read that shows the group, the one looked for, without a decision.
  abbrev pub IsWaiting : Poll → Type 0
  IsWaiting p = (ng : NodeGroup) × (p.read ≡ found ng) × IsSame observed ng × IsPending ng

  turn_waits :
      (p : Poll) (s : PollState)
      → IsWaiting p
      → (t : PollState) × (poll_turn sizing name observed p.now p.read s ≡ again t)
        × (t.seen ≡ true)
        × (t.retried ≡ reported s.retried p.read)
        × (t.effects ≡ s.effects)
  unfolding poll_turn note_transient
  turn_waits p s (ng, r, same, h) = (
    note_transient ng (record s { seen = true }),
    rw (r, poll_turn) (rw (unreplaced observed ng same) (decide_pending sizing p.now name ng _ h)),
    ground arith,
    rw r (ground arith),
    ground arith,
  )

  turn_takes :
      (p : Poll) (s : PollState) (ng : NodeGroup) (accepted : Acceptance)
      → p.read ≡ found ng
      → IsSame observed ng
      → IsTaken accepted ng
      → (t : PollState) × (poll_turn sizing name observed p.now p.read s ≡ done accepted t)
        × (t.effects ≡ s.effects)
  unfolding poll_turn note_transient
  turn_takes p s ng accepted r same h = (
    note_transient ng (record s { seen = true }),
    rw (r, poll_turn)
        (rw (unreplaced observed ng same) (decide_taken sizing p.now name ng accepted _ h)),
    ground arith,
  )

  turn_vanishes :
      (p : Poll) (s : PollState)
      → s.seen ≡ true
      → p.read ≡ missing
      → poll_turn sizing name observed p.now p.read s ≡ stop (vanished name) s
  unfolding poll_turn
  turn_vanishes p s seen r = rw (r, poll_turn) (simp seen refl)

  -- Reads that give no decision, where `seen` says whether the group was seen before them: the group is
  -- missing while it has never been seen, or it is found without a decision.
  abbrev pub Waits : Bool → List Poll → Type 0
  Waits seen [] = Unit
  Waits seen (p ∷ ps) =
      ((p.read ≡ missing) × (seen ≡ false) × Waits false ps) ⊎ (IsWaiting p × Waits true ps)

  -- Some read of them found the group.
  abbrev pub Finds : List Poll → Type 0
  Finds ps = (q : Poll) × (ng : NodeGroup) × IsIn q ps × (q.read ≡ found ng)

  -- The window closes: the reads end, or the next one is interrupted.
  abbrev pub IsOver : List Poll → Type 0
  IsOver rest =
      (rest ≡ []) ⊎ ((q : Poll) × (more : List Poll) × (rest ≡ q ∷ more) × (q.read ≡ interrupted))

  turn_misses :
      (p : Poll) (s : PollState)
      → s.seen ≡ false
      → p.read ≡ missing
      → poll_turn sizing name observed p.now p.read s ≡ again s
  unfolding poll_turn
  turn_misses p s unseen r = rw (r, poll_turn) (simp unseen refl)

  -- Such reads are read over, and what was seen before or in them is known after them.
  poll-Waits :
      (pre rest : List Poll) (s : PollState)
      → Waits s.seen pre
      → (t : PollState) × (poll_from sizing parent_cancelled name observed (pre ++ rest) s
          ≡ poll_from sizing parent_cancelled name observed rest t)
        × ((s.seen ≡ true) ⊎ Finds pre → t.seen ≡ true)
        × (t.retried ≡ last_failure s.retried pre)
        × (t.effects ≡ s.effects)
  unfolding poll_from
  poll-Waits [] rest s h =
      (s, refl, λ e. elim e [ inl seen ↦ seen | inr (q, ng, i, r) ↦ absurd i ], refl, refl)
  poll-Waits (p ∷ pre) rest s (inl (r, unseen, h)) =
      let before : PollState = record s { backoff = run sizing p.calls s.backoff } in
      let (t, runs, stays, last, kept) =
        poll-Waits pre rest before (subst (λ b. Waits b pre) (sym unseen) h) in
      (
        t,
        rw (turn_misses p before unseen r, poll_from) runs,
        λ e. elim e [
          | inl seen ↦ stays (inl seen)
          | inr (q, ng, inl same, found_it) ↦ cc (rw (← same) at found_it)
          | inr (q, ng, inr i, found_it) ↦ stays (inr (q, ng, i, found_it))
        ],
        rw r last,
        kept,
      )
  poll-Waits (p ∷ pre) rest s (inr (waiting, h)) =
      let before : PollState = record s { backoff = run sizing p.calls s.backoff } in
      let (u, turn, seen, failure, same) = turn_waits p before waiting in
      let (t, runs, stays, last, kept) =
        poll-Waits pre rest u (subst (λ b. Waits b pre) (sym seen) h) in
      (
        t,
        rw (turn, poll_from) runs,
        λ _. stays (inl seen),
        last ∙ ap (λ r. last_failure r pre) failure,
        kept ∙ same,
      )

  -- However often the group is read without a decision, the first read that shows it taken ends the
  -- poll: the launch succeeds with what that read shows, and nothing has been written.
  pub first_taken_wins :
      (pre rest : List Poll) (p : Poll) (ng : NodeGroup) (accepted : Acceptance) (b : Backoff)
      → Waits (is_some observed) pre
      → p.read ≡ found ng
      → IsSame observed ng
      → IsTaken accepted ng
      → let o = wait_for_acceptance sizing parent_cancelled name observed (pre ++ (p ∷ rest)) b in
        (o.error ≡ none) × (o.accepted ≡ accepted) × (o.state.effects ≡ [])
  unfolding wait_for_acceptance poll_from
  first_taken_wins pre rest p ng accepted b waiting r same h =
      let (t, runs, _, _, kept) = poll-Waits pre (p ∷ rest) (starting observed b) waiting in
      let (u, turn, same_effects) =
        turn_takes p (record t { backoff = run sizing p.calls t.backoff }) ng accepted r same h in
      rw runs (rw (turn, poll_from) (refl, refl, same_effects ∙ kept))

  -- Where the reads before it gave no decision, a read that misses a group seen before, by one of them
  -- or before the poll, fails the launch as vanished, with nothing written; the reads that missed the
  -- group before it was first seen do not.
  pub vanish_after_seen :
      (pre rest : List Poll) (p : Poll) (b : Backoff)
      → Waits (is_some observed) pre
      → (is_some observed ≡ true) ⊎ Finds pre
      → p.read ≡ missing
      → let o = wait_for_acceptance sizing parent_cancelled name observed (pre ++ (p ∷ rest)) b in
        (o.error ≡ some (vanished name)) × (o.accepted ≡ unacknowledged) × (o.state.effects ≡ [])
  unfolding wait_for_acceptance poll_from
  vanish_after_seen pre rest p b waiting was_seen r =
      let (t, runs, stays, _, kept) = poll-Waits pre (p ∷ rest) (starting observed b) waiting in
      let before : PollState = record t { backoff = run sizing p.calls t.backoff } in
      rw runs (rw (turn_vanishes p before (stays was_seen) r, poll_from) (refl, refl, kept))

  over-Closes :
      (rest : List Poll) (s : PollState)
      → IsOver rest
      → Closes parent_cancelled s (poll_from sizing parent_cancelled name observed rest s)
  unfolding poll_from poll_turn
  over-Closes rest s (inl e) = rw e (close_window-Closes parent_cancelled s)
  over-Closes rest s (inr (q, more, e, r)) = rw e (
      rw (r, poll_from)
        (close_window-Closes parent_cancelled
          (record s { backoff = run sizing q.calls s.backoff })))

  -- With no decision before the window closes, by its end or by an interrupted read, the poll returns
  -- unacknowledged and with nothing written: without an error, and with the last transient failure that
  -- the reads showed, if the controller runs on; with the error of a shutdown, and no transient failure,
  -- if it is being stopped.
  pub window_closes :
      (pre rest : List Poll) (b : Backoff)
      → Waits (is_some observed) pre
      → IsOver rest
      → let o = wait_for_acceptance sizing parent_cancelled name observed (pre ++ rest) b in
        (((parent_cancelled ≡ false) × (o.error ≡ none) × (o.retried ≡ last_failure none pre))
          ⊎ ((parent_cancelled ≡ true) × (o.error ≡ some cancelled) × (o.retried ≡ none)))
        × (o.accepted ≡ unacknowledged)
        × (o.state.effects ≡ [])
  unfolding wait_for_acceptance
  window_closes pre rest b waiting over =
      let (t, runs, stays, last, kept) = poll-Waits pre rest (starting observed b) waiting in
      let (how, accepted, quiet) = over-Closes rest t over in
      rw runs (
        elim how [ inl (on, ok, failure) ↦ inl (on, ok, failure ∙ last) | inr off ↦ inr off ],
        accepted,
        quiet ∙ kept,
      )
