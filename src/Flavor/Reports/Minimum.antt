-- ===== src/Flavor/Reports/Minimum.antt =====
-- The minimum of two reports: it is below both, and consistent where both are.
use karpenter_provider_cleve.Base.{
  ◌≡◌, refl, ◌↔◌, inl, inr, false, Option, none, some, List, [], ◌∷◌, arith, if◌then◌else◌,
  Option-cases,
}
use karpenter_provider_cleve.Flavor.Numbers.{Resource, Quantities, IsOrdered}
use karpenter_provider_cleve.Flavor.Reports.{
  ObservedCapacity, without_disk, delete_disk, is_disk, smaller, min_merge, check_pair,
  check_consistent_on, check_consistent, generalizable_resources,
}

module _ {Q W : Type 0} (q : Quantities Q W) where
  -- `smaller` of two figures that are there
  abbrev pub lesser : Q → Q → Q
  lesser x y = if q.below y x then y else x

  pub smaller-some : (x y : Q) → smaller q (some x) (some y) ≡ some (lesser x y)
  unfolding smaller
  smaller-some x y = ground arith

  pub lesser-left : (x y : Q) → IsOrdered q → q.below x (lesser x y) ≡ false
  lesser-left x y o = ground (arith, o.below_asym x x, o.below_asym y x)

  pub lesser-right : (x y : Q) → IsOrdered q → q.below y (lesser x y) ≡ false
  lesser-right x y o = ground (arith, o.below_asym y y)

  lesser-greatest :
      (x y z : Q)
      → IsOrdered q
      → q.below x z ≡ false
      → q.below y z ≡ false
      → q.below (lesser x y) z ≡ false
  lesser-greatest x y z o h k = ground arith

  check_pair-le :
      (r : Resource) (c a : Q) → check_pair q r (some c) (some a) ≡ none → q.below c a ≡ false
  unfolding check_pair
  check_pair-le r c a h = ground arith

  check_pair-smaller :
      (r : Resource) (c c' a a' : Option Q)
      → IsOrdered q
      → check_pair q r c a ≡ none
      → check_pair q r c' a' ≡ none
      → check_pair q r (smaller q c c') (smaller q a a') ≡ none
  unfolding check_pair smaller
  check_pair-smaller r none c' none a' o h k = k
  check_pair-smaller r none c' (some a) a' o h k = cc
  check_pair-smaller r (some c) c' none a' o h k = cc
  check_pair-smaller r (some c) none (some a) none o h k = h
  check_pair-smaller r (some c) none (some a) (some a') o h k = cc
  check_pair-smaller r (some c) (some c') (some a) none o h k = cc
  check_pair-smaller r (some c) (some c') (some a) (some a') o h k =
      let m = lesser a a' in
      let left = o.below_trans m a c (lesser-left a a' o) (check_pair-le r c a h) in
      let right = o.below_trans m a' c' (lesser-right a a' o) (check_pair-le r c' a' k) in
      let p = lesser-greatest c c' m o left right in
      rw (smaller-some c c', smaller-some a a', check_pair, p) refl

  -- A list of resources is consistent when the figures of each are.
  check_consistent_on_iff :
      (o : ObservedCapacity Q) (r : Resource) (resources : List Resource)
      → (check_consistent_on q o (r ∷ resources) ≡ none) ↔ (
          (check_pair q r (o.capacity r) (o.allocatable r) ≡ none)
          × (check_consistent_on q o resources ≡ none))
  unfolding check_consistent_on
  check_consistent_on_iff o r resources =
      elim (Option-cases (check_pair q r (o.capacity r) (o.allocatable r))) [
        | inl p ↦
            (λ h. (p, rw (p, check_consistent_on) at h), λ (a, b). rw (p, check_consistent_on) b)
        | inr (e, p) ↦ (λ h. cc (rw (p, check_consistent_on) at h), λ (a, b). cc)
      ]

  check_consistent_on-merge :
      (a b : ObservedCapacity Q) (resources : List Resource)
      → IsOrdered q
      → check_consistent_on q a resources ≡ none
      → check_consistent_on q b resources ≡ none
      → check_consistent_on q
          (record {
            capacity = min_merge q a.capacity b.capacity;
            allocatable = min_merge q a.allocatable b.allocatable;
          })
          resources
        ≡ none
  unfolding check_consistent_on min_merge
  check_consistent_on-merge a b [] o h k = refl
  check_consistent_on-merge a b (r ∷ resources) o h k =
      let (h0, h1) = (check_consistent_on_iff a r resources).0 h in
      let (k0, k1) = (check_consistent_on_iff b r resources).0 k in
      let p =
        check_pair-smaller r (a.capacity r) (b.capacity r) (a.allocatable r) (b.allocatable r) o h0
          k0 in
      rw (p, check_consistent_on) (check_consistent_on-merge a b resources o h1 k1)

  -- The merge of two consistent reports is consistent: no overhead of it is negative.
  pub check_consistent-merge :
      (a b : ObservedCapacity Q)
      → IsOrdered q
      → check_consistent q a ≡ none
      → check_consistent q b ≡ none
      → check_consistent q (record {
        capacity = min_merge q a.capacity b.capacity;
        allocatable = min_merge q a.allocatable b.allocatable;
      })
        ≡ none
  unfolding check_consistent
  check_consistent-merge a b o h k = check_consistent_on-merge a b generalizable_resources o h k

  -- A report stays consistent without its disk.
  pub check_consistent-without_disk :
      (o : ObservedCapacity Q)
      → check_consistent q o ≡ none
      → check_consistent q (without_disk o) ≡ none
  unfolding check_consistent check_consistent_on check_pair without_disk delete_disk is_disk
  check_consistent-without_disk o h = ground arith

  pub check_consistent-empty :
      check_consistent q (record { capacity = λ r. none; allocatable = λ r. none }) ≡ none
  unfolding check_consistent check_consistent_on check_pair
  check_consistent-empty = refl
