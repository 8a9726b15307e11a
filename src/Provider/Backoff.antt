-- ===== src/Provider/Backoff.antt =====
-- pkg/providers/nodegroup/nodegroup.go: what the provider learned from the operator's refusals, the
-- state that `mu` guards. Instants and durations are in nanoseconds; the sequence numbers are
-- uint64 and wrap.
pub mod Order
pub mod Coverage
pub mod Marks
use karpenter_provider_cleve.Base.{
  ℕ, ◌+◌, ◌-◌, ◌*◌, ◌/◌, ◌%◌, ◌^◌, Bool, true, false, ◌&&◌, ◌||◌, Option, none, some, List, [], ◌∷◌,
  Text, text_eq, text_lt, ltb, leb, ◌==◌, Map, lookup, insert, erase, if◌then◌else◌, is_some,
}
use karpenter_provider_cleve.Flavor.Sizing.{Sizing, at_least}

abbrev pub second : ℕ
second = 1_000_000_000

-- `QuotaBackoff`
abbrev pub quota_backoff : ℕ
quota_backoff = 60 * second

-- `flavorBackoff`
abbrev pub flavor_backoff : ℕ
flavor_backoff = 300 * second

-- `flavorHoldOut`
pub record FlavorHoldOut : Type 0 where
  pub at : ℕ
  pub seq : ℕ

-- `quotaRejection`; a size of `none` is its `sized == false`.
pub record QuotaRejection : Type 0 where
  pub at : ℕ
  pub message : Text
  pub seq : ℕ
  pub size : Option Sizing

-- The fields of `Provider` under `mu`; a nil map is an empty one.
pub record Backoff : Type 0 where
  pub quota_rejections : Map QuotaRejection
  pub quota_rejection_seq : ℕ
  pub rejected_flavors : Map FlavorHoldOut
  pub hold_out_seq : ℕ

-- What `NewProvider` starts from.
abbrev pub new_backoff : Backoff
new_backoff = record {
  quota_rejections = [];
  quota_rejection_seq = 0;
  rejected_flavors = [];
  hold_out_seq = 0;
}

-- `Catalogue.Sizing`, as `Provider.sizing` calls it; no catalogue sizes nothing.
abbrev pub Catalogue : Type 0
Catalogue = Text → Option Sizing

-- `seq++` on a uint64
unfoldable pub next_seq : ℕ → ℕ
next_seq n = (n + 1) % 2 ^ 64

-- `recordQuotaRejection`
unfoldable pub record_quota_rejection : Catalogue → ℕ → Text → Text → Backoff → Backoff
record_quota_rejection sizing now flavor message b =
    let seq = next_seq b.quota_rejection_seq in
    record b {
      quota_rejections =
          insert flavor (record { at = now; message = message; seq = seq; size = sizing flavor })
            b.quota_rejections;
      quota_rejection_seq = seq;
    }

-- `sized && r.sized && size.AtLeast(r.size)`
unfoldable pub covers_size : Option Sizing → Option Sizing → Bool
covers_size none r = false
covers_size (some size) none = false
covers_size (some size) (some rejected) = at_least size rejected

-- `quotaRejection.coverage`: until when, if at all
unfoldable pub coverage : QuotaRejection → Text → Text → Option Sizing → Option ℕ
coverage r rejected flavor size =
    if text_eq rejected flavor
    then some (r.at + quota_backoff)
    else if covers_size size r.size
    then some (r.at + 2 * quota_backoff)
    else none

-- What `quotaRejectionCovering` returns: the flavor rejected, its rejection and the end.
pub record Covering : Type 0 where
  pub by : Text
  pub rejection : QuotaRejection
  pub until : ℕ

-- `!found || end.After(until) || (end.Equal(until) && rejected < coveredBy)`
unfoldable pub prefers : Option Covering → Text → ℕ → Bool
prefers none rejected end = true
prefers (some c) rejected end = ltb c.until end || (end == c.until && text_lt rejected c.by)

-- One turn of its loop: an entry that does not cover, or no longer, is passed over.
unfoldable pub consider :
    ℕ → Text → Option Sizing → Text × QuotaRejection → Option Covering → Option Covering
unfolding prefers
consider now flavor size (rejected, r) best = elim (coverage r rejected flavor size) [
  | none ↦ best
  | some end ↦
      if ltb now end && prefers best rejected end
      then some (record { by = rejected; rejection = r; until = end })
      else best
]

unfoldable pub covering_from :
    ℕ → Text → Option Sizing → Map QuotaRejection → Option Covering → Option Covering
covering_from now flavor size [] best = best
covering_from now flavor size (e ∷ m) best =
    covering_from now flavor size m (consider now flavor size e best)

-- `quotaRejectionCovering`
unfoldable pub quota_rejection_covering : ℕ → Text → Option Sizing → Backoff → Option Covering
quota_rejection_covering now flavor size b = covering_from now flavor size b.quota_rejections none

-- `held && p.clock.Since(hold.at) < flavorBackoff`
unfoldable pub is_held : ℕ → Text → Backoff → Bool
is_held now flavor b = elim (lookup flavor b.rejected_flavors) [
  | none ↦ false
  | some hold ↦ ltb now (hold.at + flavor_backoff)
]

-- `Unavailable`
unfoldable pub unavailable : Catalogue → ℕ → Text → Backoff → Bool
unavailable sizing now flavor b =
    if is_held now flavor b
    then true
    else is_some (quota_rejection_covering now flavor (sizing flavor) b)

-- `max(until.Sub(now).Round(time.Second), time.Second)`, where `now` is before `until`
unfoldable pub remaining : ℕ → ℕ → ℕ
remaining now until =
    let rounded = (until - now + second / 2) / second * second in
    if ltb rounded second then second else rounded

-- What the message of the fast failure is made of: the rejection that covers the flavor, and for how
-- long still.
pub record FastFail : Type 0 where
  pub flavor : Text
  pub rejected : Text
  pub message : Text
  pub lasts : ℕ

-- `quotaFastFail`; `none` is its nil. The clock is read for the coverage, at `now`, and again, at `later`,
-- for the time that is left.
unfoldable pub quota_fast_fail : Catalogue → ℕ → ℕ → Text → Backoff → Option FastFail
quota_fast_fail sizing now later flavor b =
    elim (quota_rejection_covering now flavor (sizing flavor) b) [
      | none ↦ none
      | some c ↦ some (record {
        flavor = flavor;
        rejected = c.by;
        message = c.rejection.message;
        lasts = remaining later c.until;
      })
    ]

-- `recordFlavorRejection`
unfoldable pub record_flavor_rejection : ℕ → Text → Backoff → Backoff
record_flavor_rejection now flavor b =
    let seq = next_seq b.hold_out_seq in
    record b {
      rejected_flavors = insert flavor (record { at = now; seq = seq }) b.rejected_flavors;
      hold_out_seq = seq;
    }

-- `holdOutMark`
unfoldable pub hold_out_mark : Backoff → ℕ
hold_out_mark b = b.hold_out_seq

-- `clearFlavorRejection`
unfoldable pub clear_flavor_rejection : Text → ℕ → Backoff → Backoff
clear_flavor_rejection flavor mark b = elim (lookup flavor b.rejected_flavors) [
  | none ↦ b
  | some hold ↦
      if leb hold.seq mark
      then record b { rejected_flavors = erase flavor b.rejected_flavors }
      else b
]

-- `quotaRejectionMark`
unfoldable pub quota_rejection_mark : Backoff → ℕ
quota_rejection_mark b = b.quota_rejection_seq

-- The loop of `clearQuotaRejections`.
unfoldable pub newer_than : ℕ → Map QuotaRejection → Map QuotaRejection
newer_than mark [] = []
newer_than mark (e ∷ m) = if leb e.1.seq mark then newer_than mark m else e ∷ newer_than mark m

-- `clearQuotaRejections`
unfoldable pub clear_quota_rejections : ℕ → Backoff → Backoff
clear_quota_rejections mark b = record b { quota_rejections = newer_than mark b.quota_rejections }
