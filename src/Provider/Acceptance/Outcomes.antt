-- ===== src/Provider/Acceptance/Outcomes.antt =====
-- How the acceptance poll as a whole can end.
use mathlib.Core.Option.{some-injective}
use karpenter_provider_cleve.Base.{
  ℕ, ◌+◌, ◌<◌, ◌≡◌, refl, sym, ap, ◌∙◌, subst, ◌⊎◌, inl, inr, Bool, true, false, Option, none, some,
  List, [], ◌∷◌, Text, arith, IsIn, is_some, Bool-cases,
}
use karpenter_provider_cleve.Api.NodeGroup.{NodeGroup}
use karpenter_provider_cleve.Provider.Backoff.{Backoff, Catalogue, unavailable, quota_backoff}
use karpenter_provider_cleve.Provider.Backoff.Coverage.{record_quota_rejection-unavailable}
use karpenter_provider_cleve.Provider.Backoff.Marks.{run}
use karpenter_provider_cleve.Provider.Effects.{
  deletes_any, CreateError, vanished, cancelled, failed, quota_exceeded, flavor_rejected,
}
use karpenter_provider_cleve.Provider.Acceptance.{
  unacknowledged, Read, found, missing, interrupted, broken, Poll, PollState, Turn, again, done,
  stop, expire, Outcome, is_replaced, note_transient, poll_turn, close_window, poll_from,
  wait_for_acceptance, failure_message,
}
use karpenter_provider_cleve.Provider.Acceptance.Verdict.{
  IsLostCause, IsTaken, Refused, Decides, decide-Decides,
}

note_transient_keeps :
    (ng : NodeGroup) (s : PollState)
    → ((note_transient ng s).effects ≡ s.effects) × ((note_transient ng s).backoff ≡ s.backoff)
unfolding note_transient
note_transient_keeps ng s = ground arith

module _ (sizing : Catalogue) (name : Text) where
  -- What a turn of the poll on some read comes to.
  abbrev Says : ℕ → Read → PollState → Turn → Type 0
  Says now read s (again t) = t.effects ≡ s.effects
  Says now read s (done accepted t) =
      (ng : NodeGroup) × (read ≡ found ng) × IsTaken accepted ng × (t.effects ≡ s.effects)
  Says now read s (stop error t) =
      ((error ≡ vanished name) × (t.effects ≡ s.effects))
      ⊎ (((m : Text) × (error ≡ failed m) × (t.effects ≡ s.effects))
          ⊎ ((ng : NodeGroup) × (u : PollState) × (read ≡ found ng)
              × IsLostCause ng
              × (u.effects ≡ s.effects)
              × (u.backoff ≡ s.backoff)
              × Refused sizing now name ng u error t))
  Says now read s (expire t) = t.effects ≡ s.effects

  decided :
      (now : ℕ) (ng : NodeGroup) (s u : PollState) (t : Turn)
      → u.effects ≡ s.effects
      → u.backoff ≡ s.backoff
      → Decides sizing now name ng u t
      → Says now (found ng) s t
  decided now ng s u (again t) e b (h, p) = ap (λ x. x.effects) p ∙ e
  decided now ng s u (done accepted t) e b (h, p) = (ng, refl, h, ap (λ x. x.effects) p ∙ e)
  decided now ng s u (stop error t) e b (inl (gone, v, p)) = inl (v, ap (λ x. x.effects) p ∙ e)
  decided now ng s u (stop error t) e b (inr (lost, r)) = inr (inr (ng, u, refl, lost, e, b, r))
  decided now ng s u (expire t) e b h = absurd h

  turn-Says :
      (observed : Option NodeGroup) (now : ℕ) (read : Read) (s : PollState)
      → Says now read s (poll_turn sizing name observed now read s)
  unfolding poll_turn
  turn-Says observed now missing s = elim (Bool-cases s.seen) [
    | inl e ↦ simp e (inl (refl, refl))
    | inr e ↦ simp e refl
  ]
  turn-Says observed now interrupted s = refl
  turn-Says observed now (broken m) s = inr (inl (m, refl, refl))
  turn-Says observed now (found ng) s = elim (Bool-cases (is_replaced observed ng)) [
    | inl e ↦ rw e (inl (refl, refl))
    | inr e ↦ rw e (
        let k = note_transient_keeps ng (record s { seen = true }) in
        decided now ng s (note_transient ng (record s { seen = true })) _ k.0 k.1
          (decide-Decides sizing now name ng (note_transient ng (record s { seen = true }))))
  ]

  -- The six ways in which the poll ends. The window closes without a decision; the controller shuts
  -- down; the group is gone or going; a read fails; the operator took a group that was read; or it
  -- refused one, and only then is anything deleted, counted or recorded by the poll.
  pub data Ended (polls : List Poll) (before : PollState) (o : Outcome) : Type 0 where
    timed_out :
        o.error ≡ none
        → o.accepted ≡ unacknowledged
        → o.state.effects ≡ before.effects
        → Ended polls before o
    shut_down :
        o.error ≡ some cancelled
        → o.retried ≡ none
        → o.state.effects ≡ before.effects
        → Ended polls before o
    lost : o.error ≡ some (vanished name) → o.state.effects ≡ before.effects → Ended polls before o
    broke :
        (m : Text)
        → o.error ≡ some (failed m)
        → o.state.effects ≡ before.effects
        → Ended polls before o
    taken :
        (p : Poll) (ng : NodeGroup)
        → IsIn p polls
        → p.read ≡ found ng
        → IsTaken o.accepted ng
        → o.error ≡ none
        → o.state.effects ≡ before.effects
        → Ended polls before o
    refused :
        (p : Poll) (ng : NodeGroup) (s : PollState) (error : CreateError)
        → IsIn p polls
        → p.read ≡ found ng
        → IsLostCause ng
        → o.error ≡ some error
        → s.effects ≡ before.effects
        → Refused sizing p.now name ng s error o.state
        → Ended polls before o

  later :
      (p : Poll) (ps : List Poll) (s t : PollState) (o : Outcome)
      → t.effects ≡ s.effects
      → Ended ps t o
      → Ended (p ∷ ps) s o
  later p ps s t o e (timed_out a b c) = timed_out a b (c ∙ e)
  later p ps s t o e (shut_down a b c) = shut_down a b (c ∙ e)
  later p ps s t o e (lost a c) = lost a (c ∙ e)
  later p ps s t o e (broke m a c) = broke m a (c ∙ e)
  later p ps s t o e (taken q ng i r k a c) = taken q ng (inr i) r k a (c ∙ e)
  later p ps s t o e (refused q ng u error i r k a c d) =
      refused q ng u error (inr i) r k a (c ∙ e) d

  closed :
      (polls : List Poll) (parent_cancelled : Bool) (before s : PollState)
      → s.effects ≡ before.effects
      → Ended polls before (close_window parent_cancelled s)
  unfolding close_window
  closed polls true before s e = shut_down refl refl e
  closed polls false before s e = timed_out refl refl e

  after_turn :
      (parent_cancelled : Bool) (observed : Option NodeGroup) (p : Poll) (ps : List Poll)
      (s : PollState) (t : Turn)
      → ((u : PollState) → Ended ps u (poll_from sizing parent_cancelled name observed ps u))
      → Says p.now p.read (record s { backoff = run sizing p.calls s.backoff }) t
      → Ended (p ∷ ps) s (elim t as (λ _. Outcome) [
        | again u ↦ poll_from sizing parent_cancelled name observed ps u
        | done accepted u ↦ record {
          accepted = accepted;
          retried = u.retried;
          error = none;
          state = u;
        }
        | stop error u ↦ record {
          accepted = unacknowledged;
          retried = u.retried;
          error = some error;
          state = u;
        }
        | expire u ↦ close_window parent_cancelled u
      ])
  after_turn parent_cancelled observed p ps s (again u) rest h = later p ps s u _ h (rest u)
  after_turn parent_cancelled observed p ps s (done accepted u) rest (ng, r, k, e) =
      taken p ng (inl refl) r k refl e
  after_turn parent_cancelled observed p ps s (stop error u) rest (inl (v, e)) = lost (ap some v) e
  after_turn parent_cancelled observed p ps s (stop error u) rest (inr (inl (m, v, e))) =
      broke m (ap some v) e
  after_turn parent_cancelled observed p ps s (stop error u) rest
        (inr (inr (ng, v, r, k, e, b, d))) =
      refused p ng v error (inl refl) r k refl e d
  after_turn parent_cancelled observed p ps s (expire u) rest h =
      closed (p ∷ ps) parent_cancelled s u h

  -- Every poll ends in one of the six ways, whatever is read, whatever other goroutines do meanwhile.
  pub poll_from-Ended :
      (parent_cancelled : Bool) (observed : Option NodeGroup) (polls : List Poll) (s : PollState)
      → Ended polls s (poll_from sizing parent_cancelled name observed polls s)
  unfolding poll_from
  poll_from-Ended parent_cancelled observed [] s = closed [] parent_cancelled s s refl
  poll_from-Ended parent_cancelled observed (p ∷ ps) s =
      after_turn parent_cancelled observed p ps s _ (poll_from-Ended parent_cancelled observed ps)
        (turn-Says observed p.now p.read (record s { backoff = run sizing p.calls s.backoff }))

same_flavor : {f m g n : Text} → quota_exceeded f m ≡ quota_exceeded g n → f ≡ g
same_flavor h = cc

-- The state that `waitForAcceptance` starts from has no effects behind it.
abbrev pub starting : Option NodeGroup → Backoff → PollState
starting observed b = record { seen = is_some observed; retried = none; backoff = b; effects = [] }

module _ (sizing : Catalogue) (parent_cancelled : Bool) (name : Text) (observed : Option NodeGroup)
    (polls : List Poll) (b : Backoff) where
  -- `waitForAcceptance` returns in one of the six ways, and what it did is what goes with that way.
  pub wait_for_acceptance-Ended :
      Ended sizing name polls
        (starting observed b)
        (wait_for_acceptance sizing parent_cancelled name observed polls b)
  unfolding wait_for_acceptance
  wait_for_acceptance-Ended =
      poll_from-Ended sizing name parent_cancelled observed polls (starting observed b)

  -- The poll deletes a NodeGroup only if one of its reads shows it to stay, not to be Ready and to be
  -- refused, and then the launch fails with the refusal of that group's flavor.
  pub deletes_only_refused :
      deletes_any (wait_for_acceptance sizing parent_cancelled name observed polls b).state.effects
        ≡ true
      → (p : Poll) × (ng : NodeGroup) × IsIn p polls
        × (p.read ≡ found ng)
        × IsLostCause ng
        × (error : CreateError) × ((wait_for_acceptance sizing parent_cancelled name observed polls
              b).error
            ≡ some error)
        × (((m : Text) × (error ≡ quota_exceeded ng.spec.flavor m))
            ⊎ ((r : Text × Text) × (error ≡ flavor_rejected ng.spec.flavor r.0 r.1)))
  unfolding deletes_any
  deletes_only_refused h = elim wait_for_acceptance-Ended [
    | timed_out _ _ e ↦ cc
    | shut_down _ _ e ↦ cc
    | lost _ e ↦ cc
    | broke _ _ e ↦ cc
    | taken _ _ _ _ _ _ e ↦ cc
    | refused p ng s error i r k a e d ↦
        (p, ng, i, r, k, error, a, elim d [ inl q ↦ inl (_, q.1) | inr q ↦ inr (q.1.0, q.1.2) ])
  ]

  -- A quota refusal seen by the poll leaves its flavor unavailable, for the backoff from that read on.
  pub quota_refusal-unavailable :
      (flavor message : Text)
      → (wait_for_acceptance sizing parent_cancelled name observed polls b).error
        ≡ some (quota_exceeded flavor message)
      → (p : Poll) × IsIn p polls
        × ((now : ℕ)
            → now < p.now + quota_backoff
            → unavailable sizing now flavor
                (wait_for_acceptance sizing parent_cancelled name observed polls b).state.backoff
              ≡ true)
  quota_refusal-unavailable flavor message h = elim wait_for_acceptance-Ended [
    | timed_out a _ _ ↦ cc
    | shut_down a _ _ ↦ cc
    | lost a _ ↦ cc
    | broke _ a _ ↦ cc
    | taken _ _ _ _ _ a _ ↦ cc
    | refused p ng s error i r k a e d ↦ elim d [
      | inl (over, v, back, _) ↦ (
        p,
        i,
        λ now early.
            subst
              (λ f.
                unavailable sizing now f
                  (wait_for_acceptance sizing parent_cancelled name observed polls b).state.backoff
                ≡ true)
              (same_flavor (sym v ∙ some-injective _ _ (sym a ∙ h)))
              (rw back (
                record_quota_rejection-unavailable sizing p.now ng.spec.flavor (failure_message ng)
                  s.backoff now ng.spec.flavor (inl (refl, early)))),
      )
      | inr (fits, (r, _, v), _, _) ↦ cc
    ]
  ]
