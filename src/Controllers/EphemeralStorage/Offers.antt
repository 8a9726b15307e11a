-- ===== src/Controllers/EphemeralStorage/Offers.antt =====
-- What new machines are offered after each outcome of a reconcile.
use karpenter_provider_cleve.Base.{
  ◌≡◌, ◌≢◌, refl, ◌⊎◌, inl, inr, Bool, true, false, not, ◌&&◌, some, [], Text, text_eq_refl,
  is_some, arith, All, Bool-cases, Option-cases,
}
use karpenter_provider_cleve.Flavor.Numbers.{Doubles, ephemeral_storage, Quantities, IsPointwise}
use karpenter_provider_cleve.Flavor.Reports.{figure}
use karpenter_provider_cleve.Flavor.TypeProvider.{
  TypeProvider, SetResult, set, bad_capacity, bad_allocatable, allocatable_exceeds, not_enabled,
  invalidate_reference, is_ready, is_whole, normalized, changes, set_reference,
}
use karpenter_provider_cleve.Flavor.TypeProvider.Types.{list_for_provisioning}
use karpenter_provider_cleve.Flavor.TypeProvider.Disk.{
  OffersNoDisk, OffersDisk, list_for_provisioning-disk,
}
use karpenter_provider_cleve.Controllers.Reads.{Answer, got, nothing, broken}
use karpenter_provider_cleve.Controllers.EphemeralStorage.{
  HostNode, State, invalidate, take_reference, read_reference, reconcile,
}

module _ {Q W : Type 0} (q : Quantities Q W) (d : Doubles W) where
  -- The node's disk: positive numbers of whole bytes, the allocatable at most the capacity.
  unfoldable pub is_usable : Q → Q → Bool
  unfolding is_whole
  is_usable capacity allocatable =
      is_whole q d capacity && is_whole q d allocatable && not (q.below capacity allocatable)

  -- The node stands, and its disk is usable.
  unfoldable pub is_reference : HostNode Q → Bool
  unfolding is_usable figure
  is_reference node =
      not (is_some node.deleted)
      && is_usable (figure q (node.capacity ephemeral_storage))
          (figure q (node.allocatable ephemeral_storage))

  set_reference-usable :
      (p : TypeProvider Q W) (capacity allocatable : Q)
      → p.ephemeral_storage_required ≡ true
      → is_usable capacity allocatable ≡ true
      → set_reference q d p capacity allocatable ≡ (
        record p {
          ephemeral_storage_reference = some (normalized q d capacity allocatable);
          ephemeral_storage_ready = true;
        },
        set (changes q d p (normalized q d capacity allocatable)),
      )
  unfolding set_reference is_usable
  set_reference-usable p capacity allocatable r h = ground arith

  set_reference-unusable :
      (p : TypeProvider Q W) (capacity allocatable : Q)
      → is_usable capacity allocatable ≡ false
      → (e : SetResult) × (set_reference q d p capacity allocatable ≡ (p, e))
        × ((b : Bool) → e ≢ set b)
  unfolding set_reference is_usable
  set_reference-unusable p capacity allocatable h = elim (Bool-cases (is_whole q d capacity)) [
    | inr a ↦ (bad_capacity, rw (set_reference, a) refl, λ b e. cc)
    | inl a ↦ elim (Bool-cases (is_whole q d allocatable)) [
      | inr c ↦ (bad_allocatable, rw (set_reference, a, c) refl, λ b e. cc)
      | inl c ↦ elim (Bool-cases (q.below capacity allocatable)) [
        | inl x ↦ (allocatable_exceeds, rw (set_reference, a, c, x) refl, λ b e. cc)
        | inr x ↦ cc (rw (is_usable, a, c, x) at h)
      ]
    ]
  ]

  -- The outcome of a reconcile: no machine is offered a disk, and an error is returned; or every machine
  -- is offered the node's disk in whole bytes, and none is.
  abbrev pub Withdrawn : Bool × State Q W → Type 0
  Withdrawn r =
      (r.0 ≡ false)
      × (r.1.ready_gauge ≡ 0)
      × All (OffersNoDisk q d) (list_for_provisioning q d r.1.provider).0

  abbrev pub Offered : Q → Q → Bool × State Q W → Type 0
  Offered capacity allocatable r =
      (r.0 ≡ true)
      × (r.1.ready_gauge ≡ 1)
      × All (OffersDisk q d (normalized q d capacity allocatable))
          (list_for_provisioning q d r.1.provider).0

  invalidate-Withdrawn :
      (s : State Q W)
      → IsPointwise q
      → s.provider.ephemeral_storage_required ≡ true
      → Withdrawn (false, invalidate q d s)
  unfolding invalidate invalidate_reference is_ready
  invalidate-Withdrawn s l r =
      let p = invalidate_reference q d s.provider in
      (refl, refl, (list_for_provisioning-disk q d p l).0 (simp r refl))

  take_reference-Offered :
      (capacity allocatable : Q) (s : State Q W)
      → IsPointwise q
      → s.provider.ephemeral_storage_required ≡ true
      → is_usable capacity allocatable ≡ true
      → Offered capacity allocatable (take_reference q d capacity allocatable s)
  unfolding take_reference is_ready
  take_reference-Offered c a s l r h =
      let disk = normalized q d c a in
      let p : TypeProvider Q W = record s.provider {
        ephemeral_storage_reference = some disk;
        ephemeral_storage_ready = true;
      } in
      simp (set_reference-usable s.provider c a r h, take_reference)
        (refl, refl, (list_for_provisioning-disk q d p l).1 disk (simp r refl) refl)

  take_reference-Withdrawn :
      (capacity allocatable : Q) (s : State Q W)
      → IsPointwise q
      → s.provider.ephemeral_storage_required ≡ true
      → is_usable capacity allocatable ≡ false
      → Withdrawn (take_reference q d capacity allocatable s)
  unfolding take_reference
  take_reference-Withdrawn c a s l r h =
      let (e, p, other) = set_reference-unusable s.provider c a h in of_result e p other
    where
      of_result :
          (e : SetResult)
          → set_reference q d s.provider c a ≡ (s.provider, e)
          → ((b : Bool) → e ≢ set b)
          → Withdrawn (take_reference q d c a s)
      of_result (set b) p other = elim (other b refl) [ ]
      of_result bad_capacity p other = simp (p, take_reference) (invalidate-Withdrawn s l r)
      of_result bad_allocatable p other = simp (p, take_reference) (invalidate-Withdrawn s l r)
      of_result allocatable_exceeds p other = simp (p, take_reference) (invalidate-Withdrawn s l r)
      of_result not_enabled p other = simp (p, take_reference) (invalidate-Withdrawn s l r)

  -- With dynamic disks, and with lists of quantities treated pointwise: a reconcile of the reference node,
  -- by an event of it or by the periodic request, fails and changes nothing where the node cannot be read
  -- for a moment; where it is gone, is being deleted or has no usable disk, it fails and every type is
  -- offered without a disk; where its disk is usable, it does not fail and every type is offered with that
  -- disk.
  pub reconcile-offers :
      (node_name request : Text) (answer : Answer (HostNode Q)) (s : State Q W)
      → IsPointwise q
      → (request ≡ []) ⊎ (request ≡ node_name)
      → s.provider.ephemeral_storage_required ≡ true
      → (answer ≡ broken → reconcile q d node_name request answer s ≡ (false, s))
        × (answer ≡ nothing → Withdrawn (reconcile q d node_name request answer s))
        × ((node : HostNode Q)
            → answer ≡ got node
            → (is_reference node ≡ false → Withdrawn (reconcile q d node_name request answer s))
              × (is_reference node ≡ true
                  → Offered
                      (figure q (node.capacity ephemeral_storage))
                      (figure q (node.allocatable ephemeral_storage))
                      (reconcile q d node_name request answer s)))
  unfolding reconcile read_reference is_reference
  reconcile-offers node_name request answer s l either r = (
    λ e. rw (same, e) refl,
    λ e. rw (same, e) (invalidate-Withdrawn s l r),
    λ node e. (
      λ h.
          rw (same, e)
            (elim (Option-cases node.deleted) [
              | inr (t, gone) ↦ simp (gone, read_reference) (invalidate-Withdrawn s l r)
              | inl stands ↦
                  simp (stands, read_reference)
                    (take_reference-Withdrawn (figure q (node.capacity ephemeral_storage))
                      (figure q (node.allocatable ephemeral_storage)) s l r (simp stands at h))
            ]),
      λ h.
          rw (same, e)
            (elim (Option-cases node.deleted) [
              | inr (t, gone) ↦ cc (simp gone at h)
              | inl stands ↦
                  simp (stands, read_reference)
                    (take_reference-Offered (figure q (node.capacity ephemeral_storage))
                      (figure q (node.allocatable ephemeral_storage)) s l r (simp stands at h))
            ]),
    ),
  )
    where
      same : reconcile q d node_name request answer s ≡ read_reference q d answer s
      same = elim either [
        | inl e ↦ rw (e, reconcile) refl
        | inr e ↦ rw (e, reconcile) (ground (arith, text_eq_refl node_name))
      ]
