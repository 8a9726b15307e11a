-- ===== src/Flavor/TypeProvider/Disk.antt =====
-- The disk that new machines are offered.
use karpenter_provider_cleve.Base.{◌≡◌, refl, true, false, none, some, List, [], ◌∷◌, map, All}
use karpenter_provider_cleve.Flavor.Numbers.{
  Doubles, Resource, ephemeral_storage, ResourceList, Quantities, IsPointwise,
}
use karpenter_provider_cleve.Flavor.Overrides.{Flavor}
use karpenter_provider_cleve.Flavor.Reports.{delete_disk, set_disk, is_disk}
use karpenter_provider_cleve.Flavor.TypeProvider.{DiskProfile, TypeProvider, is_ready}
use karpenter_provider_cleve.Flavor.TypeProvider.Types.{
  InstanceType, kube_overhead, observed_profile, disk_profile, new_instance_type, list_types,
  without_disk_guarantee, list_for_provisioning,
}

module _ {Q W : Type 0} (q : Quantities Q W) (d : Doubles W) where
  All-map :
      {A B : Type 0}
      → (P : B → Type 0) (g : A → B) (xs : List A) → ((x : A) → P (g x))
      → All P (map g xs)
  All-map P g [] h = tt
  All-map P g (x ∷ xs) h = (h x, All-map P g xs h)

  -- What the type leaves to pods, as karpenter computes it.
  abbrev pub allocatable_of : InstanceType Q W → ResourceList Q
  allocatable_of it = q.subtract it.capacity (q.total it.overhead)

  -- The type has a disk of size zero, and reserves none of it.
  abbrev pub OffersNoDisk : InstanceType Q W → Type 0
  OffersNoDisk it =
      (it.capacity ephemeral_storage ≡ some q.nought)
      × (it.overhead.kube_reserved ephemeral_storage ≡ none)
      × (it.overhead.system_reserved ephemeral_storage ≡ none)
      × (it.overhead.eviction_threshold ephemeral_storage ≡ none)

  -- The type has the disk of the profile: its capacity, and what it leaves to pods.
  abbrev pub OffersDisk : DiskProfile Q → InstanceType Q W → Type 0
  OffersDisk disk it =
      (it.capacity ephemeral_storage ≡ some disk.capacity)
      × ((x : Q) × (allocatable_of it ephemeral_storage ≡ some x)
          × (q.below x disk.allocatable ≡ false)
          × (q.below disk.allocatable x ≡ false))

  without_disk_guarantee-OffersNoDisk :
      (it : InstanceType Q W) → OffersNoDisk (without_disk_guarantee q d it)
  unfolding without_disk_guarantee set_disk delete_disk is_disk
  without_disk_guarantee-OffersNoDisk it = (refl, refl, refl, refl)

  total-kube_overhead :
      (m : ResourceList Q) (r : Resource) → IsPointwise q → q.total (kube_overhead q d m) r ≡ m r
  unfolding kube_overhead
  total-kube_overhead m r l = l.total_kube (kube_overhead q d m) r refl refl

  -- An allocatable that the overhead was made from is what the overhead leaves.
  subtract-kube_overhead :
      (capacity allocatable : ResourceList Q) (r : Resource) (c a : Q)
      → IsPointwise q
      → capacity r ≡ some c
      → allocatable r ≡ some a
      → q.subtract capacity (q.total (kube_overhead q d (q.subtract capacity allocatable))) r
        ≡ some (q.minus c (q.minus c a))
  subtract-kube_overhead capacity allocatable r c a l hc ha =
      let inner = q.subtract capacity allocatable in
      rw
        (
          l.subtract_at capacity (q.total (kube_overhead q d inner)) r,
          hc,
          total-kube_overhead inner r l,
          l.subtract_at capacity allocatable r,
          hc,
          ha,
        )
        refl

  new_instance_type-OffersDisk :
      (p : TypeProvider Q W) (f : Flavor W) (disk : DiskProfile Q)
      → IsPointwise q
      → p.ephemeral_storage_reference ≡ some disk
      → OffersDisk disk (new_instance_type q d p f)
  unfolding new_instance_type disk_profile set_disk is_disk
  new_instance_type-OffersDisk p f disk l h =
      let (capacity, overhead) = observed_profile q d p f in
      simp (h, disk_profile)
        (
          refl,
          (
            q.minus disk.capacity (q.minus disk.capacity disk.allocatable),
            subtract-kube_overhead (set_disk disk.capacity capacity)
                (set_disk disk.allocatable (q.subtract capacity (q.total overhead)))
                ephemeral_storage disk.capacity disk.allocatable l refl refl,
            (l.minus_minus disk.capacity disk.allocatable).0,
            (l.minus_minus disk.capacity disk.allocatable).1,
          ),
        )

  -- What is offered to new machines. While the disk is not ready, every type of the catalogue has a disk
  -- of size zero and reserves none of it. Once it is, with a reference, every type has the reference's
  -- capacity, and leaves to pods what compares equal to the reference's allocatable.
  pub list_for_provisioning-disk :
      (p : TypeProvider Q W)
      → IsPointwise q
      → (is_ready q d p ≡ false → All OffersNoDisk (list_for_provisioning q d p).0)
        × ((disk : DiskProfile Q)
            → is_ready q d p ≡ true
            → p.ephemeral_storage_reference ≡ some disk
            → All (OffersDisk disk) (list_for_provisioning q d p).0)
  unfolding list_for_provisioning list_types
  list_for_provisioning-disk p l = (
    λ h.
        rw (h, list_for_provisioning)
          (All-map OffersNoDisk (without_disk_guarantee q d) (list_types q d p)
            without_disk_guarantee-OffersNoDisk),
    λ disk h e.
        rw (h, list_for_provisioning)
          (All-map (OffersDisk disk) (new_instance_type q d p) p.flavors
            (λ f. new_instance_type-OffersDisk p f disk l e)),
  )
