-- ===== src/CloudProvider/Snapshot/RoundTrip.antt =====
-- The snapshot that a launch writes is the one that a later read finds.
use karpenter_provider_cleve.Base.{◌≡◌, refl, false, some, text_eq, lookup, arith}
use karpenter_provider_cleve.Flavor.Numbers.{
  Doubles, ephemeral_storage, Quantities, IsOrdered, IsPrinted,
}
use karpenter_provider_cleve.Flavor.Reports.{figure}
use karpenter_provider_cleve.Flavor.TypeProvider.{differs, normalized}
use karpenter_provider_cleve.Flavor.TypeProvider.Types.{InstanceType}
use karpenter_provider_cleve.Provider.Identity.{value_of}
use karpenter_provider_cleve.CloudProvider.Snapshot.{
  snapshot, allocatable, disk_snapshot_annotations, is_negative, read_quantity, check_disk,
  read_both, read_disk_snapshot,
}

module _ {Q W : Type 0} (q : Quantities Q W) (d : Doubles W) where
  -- A number of whole bytes that an int64 holds, not negative.
  pub record IsBytes (x : Q) : Type 0 where
    pub not_negative : is_negative q d (q.value x) ≡ false
    pub at_least : q.below x (q.of_int (q.value x)) ≡ false
    pub at_most : q.below (q.of_int (q.value x)) x ≡ false

  read_quantity-print :
      (x : Q)
      → IsOrdered q
      → IsPrinted q
      → IsBytes x
      → read_quantity q d (q.print x) ≡ some (q.of_int (q.value x))
  unfolding read_quantity differs
  read_quantity-print x o l b =
      let (y, p, v, le, ge) = l.parse_print x in
      let least = o.below_trans (q.of_int (q.value x)) x y b.at_least ge in
      let most = o.below_trans y x (q.of_int (q.value x)) le b.at_most in
      simp (p, v, b.not_negative, least, most, read_quantity) refl

  check_disk-snapshot :
      (c a : Q)
      → q.is_zero c ≡ q.is_zero a
      → q.below c a ≡ false
      → check_disk q d c a ≡ snapshot (record { capacity = c; allocatable = a })
  unfolding check_disk
  check_disk-snapshot c a z h = ground arith

  -- With quantities in order, which are read as they are printed: the disk of a type, whole bytes
  -- with the allocatable at most the capacity and both zero or neither, is read back from the
  -- annotations of its launch, in whole bytes.
  pub read_disk_snapshot-disk_snapshot_annotations :
      (it : InstanceType Q W)
      → IsOrdered q
      → IsPrinted q
      → IsBytes (figure q (it.capacity ephemeral_storage))
      → IsBytes (figure q (allocatable q d it ephemeral_storage))
      → q.below
          (figure q (it.capacity ephemeral_storage))
          (figure q (allocatable q d it ephemeral_storage))
        ≡ false
      → q.is_zero (q.of_int (q.value (figure q (it.capacity ephemeral_storage))))
        ≡ q.is_zero (q.of_int (q.value (figure q (allocatable q d it ephemeral_storage))))
      → read_disk_snapshot q d (disk_snapshot_annotations q d it)
        ≡ snapshot (
            normalized q d
              (figure q (it.capacity ephemeral_storage))
              (figure q (allocatable q d it ephemeral_storage)))
  unfolding read_disk_snapshot disk_snapshot_annotations value_of lookup text_eq read_both
      normalized
  read_disk_snapshot-disk_snapshot_annotations it o l cb ab h z =
      let c = figure q (it.capacity ephemeral_storage) in
      let a = figure q (allocatable q d it ephemeral_storage) in
      let le =
        o.below_trans (q.of_int (q.value a)) a (q.of_int (q.value c)) ab.at_least
          (o.below_trans a c (q.of_int (q.value c)) h cb.at_most) in
      rw (read_quantity-print c o l cb, read_quantity-print a o l ab)
        (check_disk-snapshot (q.of_int (q.value c)) (q.of_int (q.value a)) z le)
