-- ===== src/Provider/Backoff/Marks.antt =====
-- The sequence numbers: what an accepted DELETE and an accepted launch forget, and what they may not.
-- Other goroutines take `mu` between a mark and the clearing that uses it; a run of calls stands for
-- what they do there.
use karpenter_provider_cleve.Base.{
  ℕ, ◌+◌, ◌^◌, ◌≤◌, ◌<◌, ◌≡◌, refl, ◌↔◌, ◌≢◌, inl, inr, true, none, List, [], ◌∷◌, Text,
  text_eq_refl, text_eq_iff, arith, IsIn, IsIn-insert, IsIn-insert_self, IsIn-erase, IsIn-lookup,
  Map, lookup, lookup-insert, lookup-erase, length, Option-cases, leb, Bool-cases,
}
use karpenter_provider_cleve.Provider.Backoff.{
  QuotaRejection, FlavorHoldOut, Catalogue, Backoff, next_seq, record_quota_rejection,
  record_flavor_rejection, hold_out_mark, clear_flavor_rejection, quota_rejection_mark, newer_than,
  clear_quota_rejections, is_held, flavor_backoff,
}

-- A call that changes the state under `mu`.
pub data Call : Type 0 where
  quota : ℕ → Text → Text → Call
  hold : ℕ → Text → Call
  release : Text → ℕ → Call
  forget : ℕ → Call

pub apply : Catalogue → Call → Backoff → Backoff
apply sizing (quota at flavor message) b = record_quota_rejection sizing at flavor message b
apply sizing (hold at flavor) b = record_flavor_rejection at flavor b
apply sizing (release flavor mark) b = clear_flavor_rejection flavor mark b
apply sizing (forget mark) b = clear_quota_rejections mark b

unfoldable pub run : Catalogue → List Call → Backoff → Backoff
unfolding apply
run sizing [] b = b
run sizing (c ∷ cs) b = run sizing cs (apply sizing c b)

-- No entry has a sequence number above the last one given out.
pub record InBounds (b : Backoff) : Type 0 where
  pub quotas :
      (e : Text × QuotaRejection) → IsIn e b.quota_rejections → e.1.seq ≤ b.quota_rejection_seq
  pub holds : (e : Text × FlavorHoldOut) → IsIn e b.rejected_flavors → e.1.seq ≤ b.hold_out_seq

-- `n` more numbers can be given out before one wraps.
abbrev pub HasRoom : ℕ → Backoff → Type 0
HasRoom n b = (b.quota_rejection_seq + n < 2 ^ 64) × (b.hold_out_seq + n < 2 ^ 64)

IsIn-newer_than :
    (mark : ℕ) (e : Text × QuotaRejection) (m : Map QuotaRejection)
    → IsIn e (newer_than mark m)
    → IsIn e m × (mark < e.1.seq)
unfolding newer_than
IsIn-newer_than mark e [] i = elim i [ ]
IsIn-newer_than mark e (x ∷ m) i = ground (arith, IsIn-newer_than mark e m)

IsIn-newer_than_of :
    (mark : ℕ) (e : Text × QuotaRejection) (m : Map QuotaRejection)
    → IsIn e m
    → mark < e.1.seq
    → IsIn e (newer_than mark m)
unfolding newer_than
IsIn-newer_than_of mark e [] i h = elim i [ ]
IsIn-newer_than_of mark e (x ∷ m) i h = ground (arith, IsIn-newer_than_of mark e m)

-- What `clearQuotaRejections` keeps is exactly what was recorded after the mark.
pub clear_quota_rejections_iff :
    (mark : ℕ) (b : Backoff) (e : Text × QuotaRejection)
    → IsIn e (clear_quota_rejections mark b).quota_rejections
      ↔ (IsIn e b.quota_rejections × (mark < e.1.seq))
unfolding clear_quota_rejections
clear_quota_rejections_iff mark b e = (
  IsIn-newer_than mark e b.quota_rejections,
  λ h. IsIn-newer_than_of mark e b.quota_rejections h.0 h.1,
)

module _ (sizing : Catalogue) where
  apply-grows :
      (c : Call) (b : Backoff)
      → HasRoom 1 b
      → (b.quota_rejection_seq ≤ (apply sizing c b).quota_rejection_seq)
        × (b.hold_out_seq ≤ (apply sizing c b).hold_out_seq)
        × ((apply sizing c b).quota_rejection_seq ≤ b.quota_rejection_seq + 1)
        × ((apply sizing c b).hold_out_seq ≤ b.hold_out_seq + 1)
  unfolding apply record_quota_rejection record_flavor_rejection clear_flavor_rejection
      clear_quota_rejections next_seq
  apply-grows (quota at flavor message) b h = omega arith
  apply-grows (hold at flavor) b h = omega arith
  apply-grows (release flavor mark) b h = ground arith
  apply-grows (forget mark) b h = omega arith

  apply-InBounds : (c : Call) (b : Backoff) → HasRoom 1 b → InBounds b → InBounds (apply sizing c b)
  unfolding apply record_quota_rejection record_flavor_rejection clear_flavor_rejection
      clear_quota_rejections next_seq
  apply-InBounds (quota at flavor message) b h v = record {
    quotas = λ e i. elim (IsIn-insert flavor _ e b.quota_rejections i) [
      | inl p ↦ ground arith
      | inr (j, _) ↦ omega (arith, v.quotas e j)
    ];
    holds = v.holds;
  }
  apply-InBounds (hold at flavor) b h v = record {
    quotas = v.quotas;
    holds = λ e i. elim (IsIn-insert flavor _ e b.rejected_flavors i) [
      | inl p ↦ ground arith
      | inr (j, _) ↦ omega (arith, v.holds e j)
    ];
  }
  apply-InBounds (release flavor mark) b h v =
      elim (Option-cases (lookup flavor b.rejected_flavors)) [
        | inl p ↦ rw (p, clear_flavor_rejection) v
        | inr (x, p) ↦
            rw (p, clear_flavor_rejection)
              (elim (Bool-cases (leb x.seq mark)) [
                | inl old ↦ rw old (record {
                  quotas = v.quotas;
                  holds = λ e i. v.holds e (IsIn-erase flavor e b.rejected_flavors i).0;
                })
                | inr new ↦ rw new v
              ])
      ]
  apply-InBounds (forget mark) b h v = record {
    quotas = λ e i. v.quotas e (IsIn-newer_than mark e b.quota_rejections i).0;
    holds = v.holds;
  }

  -- Whatever calls are made, the bounds hold and no number is taken back, as long as none wraps.
  pub run-InBounds :
      (cs : List Call) (b : Backoff)
      → HasRoom (length cs) b
      → InBounds b
      → InBounds (run sizing cs b)
        × (b.quota_rejection_seq ≤ (run sizing cs b).quota_rejection_seq)
        × (b.hold_out_seq ≤ (run sizing cs b).hold_out_seq)
        × ((run sizing cs b).quota_rejection_seq ≤ b.quota_rejection_seq + length cs)
        × ((run sizing cs b).hold_out_seq ≤ b.hold_out_seq + length cs)
  unfolding run
  run-InBounds [] b h v = (v, omega arith, omega arith, omega arith, omega arith)
  run-InBounds (c ∷ cs) b h v =
      let g = apply-grows c b (omega arith, omega arith) in
      let r =
        run-InBounds cs (apply sizing c b) (omega arith, omega arith)
          (apply-InBounds c b (omega arith, omega arith) v) in
      (r.0, omega arith, omega arith, omega arith, omega arith)

nothing_newer :
    (mark : ℕ) (m : Map QuotaRejection)
    → ((e : Text × QuotaRejection) → IsIn e m → e.1.seq ≤ mark)
    → newer_than mark m ≡ []
unfolding newer_than
nothing_newer mark [] h = refl
nothing_newer mark (e ∷ m) h =
    ground (arith, h e (inl refl), nothing_newer mark m (λ x i. h x (inr i)))

-- A DELETE that is accepted with no call in between forgets every quota rejection.
pub clear_at_mark :
    (b : Backoff)
    → InBounds b
    → (clear_quota_rejections (quota_rejection_mark b) b).quota_rejections ≡ []
unfolding clear_quota_rejections quota_rejection_mark
clear_at_mark b v = nothing_newer b.quota_rejection_seq b.quota_rejections v.quotas

module _ (sizing : Catalogue) (b : Backoff) (before : List Call) (v : InBounds b) where
  -- Of the calls made while a DELETE is under way, a quota rejection survives its acceptance.
  pub clear_keeps_later_rejection :
      (at : ℕ) (flavor message : Text)
      → HasRoom (length before + 1) b
      → let after = apply sizing (quota at flavor message) (run sizing before b) in
        (r : QuotaRejection) × IsIn
          (flavor, r)
          (clear_quota_rejections (quota_rejection_mark b) after).quota_rejections
        × (r.at ≡ at)
        × (r.message ≡ message)
        × (r.size ≡ sizing flavor)
  unfolding apply record_quota_rejection quota_rejection_mark next_seq
  clear_keeps_later_rejection at flavor message h =
      let g = run-InBounds sizing before b (omega arith, omega arith) v in
      let mid = run sizing before b in
      (
        record {
          at = at;
          message = message;
          seq = next_seq mid.quota_rejection_seq;
          size = sizing flavor;
        },
        (clear_quota_rejections_iff b.quota_rejection_seq _ _).1
            (IsIn-insert_self flavor _ mid.quota_rejections, omega arith),
        refl,
        refl,
        refl,
      )

  -- A launch's acceptance does not lift a hold-out that was recorded after the launch took its mark:
  -- the flavor stays held for its whole time.
  pub release_keeps_later_hold_out :
      (at now : ℕ) (flavor : Text)
      → HasRoom (length before + 1) b
      → now < at + flavor_backoff
      → let after = apply sizing (hold at flavor) (run sizing before b) in
        is_held now flavor (clear_flavor_rejection flavor (hold_out_mark b) after) ≡ true
  unfolding apply record_flavor_rejection hold_out_mark clear_flavor_rejection is_held next_seq
  release_keeps_later_hold_out at now flavor h early =
      let g = run-InBounds sizing before b (omega arith, omega arith) v in
      let mid = run sizing before b in
      let found =
        lookup-insert flavor flavor (record { at = at; seq = next_seq mid.hold_out_seq })
          mid.rejected_flavors in
      ground (arith, found, text_eq_refl flavor, g.2, g.4)

-- An acceptance lifts every hold-out of its flavor that was there when the launch took its mark, and
-- touches no other flavor.
pub release_lifts_earlier_hold_out :
    (b : Backoff) (flavor other : Text)
    → InBounds b
    → let after = clear_flavor_rejection flavor (hold_out_mark b) b in
      (lookup flavor after.rejected_flavors ≡ none)
      × (flavor ≢ other → lookup other after.rejected_flavors ≡ lookup other b.rejected_flavors)
unfolding clear_flavor_rejection hold_out_mark
release_lifts_earlier_hold_out b flavor other v =
    elim (Option-cases (lookup flavor b.rejected_flavors)) [
      | inl p ↦ (rw (p, clear_flavor_rejection) p, λ _. rw (p, clear_flavor_rejection) refl)
      | inr (x, p) ↦ ground (
        arith,
        v.holds (flavor, x) (IsIn-lookup flavor x b.rejected_flavors p),
        lookup-erase flavor flavor b.rejected_flavors,
        lookup-erase flavor other b.rejected_flavors,
        text_eq_refl flavor,
        text_eq_iff flavor other,
      )
    ]
