-- ===== src/Flavor/Numbers.antt =====
-- Numbers of the language and of a library that the code computes with: Go's float64, and apimachinery's
-- resource.Quantity. Both are taken with their operations, and with laws of theirs where a theorem
-- needs them.
use karpenter_provider_cleve.Base.{ℕ, ◌≤◌, ◌<◌, ◌≡◌, Bool, true, false, Option, none, some, Text}

-- An int64 that may be negative; `negative n` is `-1 - n`.
pub data Signed : Type 0 where
  nonneg : ℕ → Signed
  negative : ℕ → Signed

-- float64: conversions of integers that are not negative, the constants 1.0 / 3, 2.0 / 3, 0.10 and 0.01
-- as the compiler rounds them, the operations, the comparisons `>` and
-- `<=`, and whether it is NaN.
pub record Doubles (W : Type 0) : Type 0 where
  pub of_count : ℕ → W
  pub third : W
  pub two_thirds : W
  pub tenth : W
  pub hundredth : W
  pub infinity : W
  pub plus : W → W → W
  pub minus : W → W → W
  pub times : W → W → W
  pub over : W → W → W
  pub magnitude : W → W
  pub round : W → W
  pub gt : W → W → Bool
  pub le : W → W → Bool
  pub is_zero : W → Bool
  pub is_nan : W → Bool

-- Rounding to the nearest keeps the order, and so each operation does, on the values of a price: none
-- is negative, infinite or not a number.
pub record IsMonotone {W : Type 0} (d : Doubles W) : Type 0 where
  pub of_count_mono : (m n : ℕ) → m ≤ n → d.gt (d.of_count m) (d.of_count n) ≡ false
  pub third_mono :
      (y z : W) → d.gt y z ≡ false → d.gt (d.times d.third y) (d.times d.third z) ≡ false
  pub two_thirds_mono :
      (y z : W) → d.gt y z ≡ false → d.gt (d.times d.two_thirds y) (d.times d.two_thirds z) ≡ false
  pub scale_mono :
      (n : ℕ) (y z : W)
      → d.gt y z ≡ false
      → d.gt (d.times y (d.of_count n)) (d.times z (d.of_count n)) ≡ false
  pub over_mono :
      (n : ℕ) (y z : W)
      → 0 < n
      → d.gt y z ≡ false
      → d.gt (d.over y (d.of_count n)) (d.over z (d.of_count n)) ≡ false
  pub plus_mono :
      (w x y z : W) → d.gt w x ≡ false → d.gt y z ≡ false → d.gt (d.plus w y) (d.plus x z) ≡ false
  pub round_mono : (y z : W) → d.gt y z ≡ false → d.gt (d.round y) (d.round z) ≡ false

-- The resources of a node; what has no name of its own in the code is `other`.
pub data Resource : Type 0 where
  cpu memory ephemeral_storage pods : Resource
  other : Text → Resource

-- A corev1.ResourceList, as the function of its lookups.
abbrev pub ResourceList : Type 0 → Type 0
ResourceList Q = Resource → Option Q

-- cloudprovider.InstanceTypeOverhead
pub record Overhead (Q : Type 0) : Type 0 where
  pub kube_reserved : ResourceList Q
  pub system_reserved : ResourceList Q
  pub eviction_threshold : ResourceList Q

-- resource.Quantity: whether `Cmp` is negative, `IsZero`, the zero, `NewQuantity`, `Value`,
-- `AsApproximateFloat64`, `MustParse`, `ParseQuantity` and `String`; and the functions on lists of
-- them, `resources.Subtract`, `InstanceTypeOverhead.Total` and `lo.Assign`.
pub record Quantities (Q W : Type 0) : Type 0 where
  pub below : Q → Q → Bool
  pub is_zero : Q → Bool
  pub nought : Q
  pub of_int : Signed → Q
  pub value : Q → Signed
  pub approximate : Q → W
  pub parse : Text → Q
  pub try_parse : Text → Option Q
  pub print : Q → Text
  pub minus : Q → Q → Q
  pub subtract : ResourceList Q → ResourceList Q → ResourceList Q
  pub total : Overhead Q → ResourceList Q
  pub assign : ResourceList Q → ResourceList Q → ResourceList Q

-- `Cmp` orders the quantities, of which several may compare equal.
pub record IsOrdered {Q W : Type 0} (q : Quantities Q W) : Type 0 where
  pub below_asym : (x y : Q) → q.below x y ≡ true → q.below y x ≡ false
  pub below_trans : (x y z : Q) → q.below y x ≡ false → q.below z y ≡ false → q.below z x ≡ false

-- `ParseQuantity` reads what `String` writes, as a quantity of the same value that compares equal.
pub record IsPrinted {Q W : Type 0} (q : Quantities Q W) : Type 0 where
  pub parse_print :
      (x : Q)
      → (y : Q) × (q.try_parse (q.print x) ≡ some y)
        × (q.value y ≡ q.value x)
        × (q.below x y ≡ false)
        × (q.below y x ≡ false)

-- The functions on lists treat each resource alone: `Assign` prefers the second list, `Subtract` keeps
-- the resources of the first, and a list that is not set adds nothing to the total.
pub record IsPointwise {Q W : Type 0} (q : Quantities Q W) : Type 0 where
  pub assign_at :
      (l m : ResourceList Q) (r : Resource)
      → q.assign l m r ≡ (elim (m r) [ none ↦ l r | some x ↦ some x ])
  pub subtract_at :
      (l m : ResourceList Q) (r : Resource)
      → q.subtract l m r ≡ (elim (l r) as (λ _. Option Q) [
        | none ↦ none
        | some x ↦ elim (m r) as (λ _. Option Q) [ none ↦ some x | some y ↦ some (q.minus x y) ]
      ])
  pub total_kube :
      (o : Overhead Q) (r : Resource)
      → o.system_reserved r ≡ none
      → o.eviction_threshold r ≡ none
      → q.total o r ≡ o.kube_reserved r
  pub minus_minus :
      (x y : Q)
      → (q.below (q.minus x (q.minus x y)) y ≡ false)
        × (q.below y (q.minus x (q.minus x y)) ≡ false)

-- `>` is a strict order of the numbers; a comparison with NaN is false.
pub record IsRanked {W : Type 0} (d : Doubles W) : Type 0 where
  pub gt_asym : (x y : W) → d.gt x y ≡ true → d.gt y x ≡ false
  pub gt_trans :
      (x y z : W) → d.is_nan y ≡ false → d.gt x y ≡ false → d.gt y z ≡ false → d.gt x z ≡ false
