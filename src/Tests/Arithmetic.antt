-- ===== src/Tests/Arithmetic.antt =====
-- Arithmetic on natural numbers in place of float64, to apply the theorems to.
use karpenter_provider_cleve.Base.{
  ℕ, zero, suc, ◌+◌, ◌-◌, ◌*◌, ◌/◌, ◌≤◌, ◌<◌, ◌≡◌, false, ltb, leb, ◌==◌, arith,
}
use native.Mathlib.Nat.{le-div_iff_mul-le, mul-div-le}
use karpenter_provider_cleve.Flavor.Numbers.{Doubles, IsMonotone, IsRanked}

times_mono : (n y z : ℕ) → y ≤ z → y * n ≤ z * n
times_mono zero y z h = omega arith
times_mono (suc n) y z h = omega (arith, times_mono n y z h)

over_mono : (n y z : ℕ) → 0 < n → y ≤ z → y / n ≤ z / n
over_mono n y z p h = (le-div_iff_mul-le p).1 (omega (arith, mul-div-le y n))

le-ltb : (y z : ℕ) → y ≤ z → ltb z y ≡ false
le-ltb y z h = ground arith

ltb-le : (y z : ℕ) → ltb z y ≡ false → y ≤ z
ltb-le y z h = ground arith

-- The constants are counted in thirds and in hundredths.
abbrev pub counts : Doubles ℕ
counts = record {
  of_count = λ n. n;
  third = 1;
  two_thirds = 2;
  tenth = 10;
  hundredth = 1;
  infinity = 1_000;
  plus = λ y z. y + z;
  minus = λ y z. y - z;
  times = λ y z. y * z;
  over = λ y z. y / z;
  magnitude = λ y. y;
  round = λ y. y;
  gt = λ y z. ltb z y;
  le = λ y z. leb y z;
  is_zero = λ y. y == 0;
  is_nan = λ y. false;
}

pub counts-IsMonotone : IsMonotone counts
counts-IsMonotone = record {
  of_count_mono = λ m n h. le-ltb m n h;
  third_mono = λ y z h. ground arith;
  two_thirds_mono = λ y z h. ground arith;
  scale_mono = λ n y z h. le-ltb (y * n) (z * n) (times_mono n y z (ltb-le y z h));
  over_mono = λ n y z p h. le-ltb (y / n) (z / n) (over_mono n y z p (ltb-le y z h));
  plus_mono = λ w x y z h k. ground arith;
  round_mono = λ y z h. h;
}

pub counts-IsRanked : IsRanked counts
counts-IsRanked = record { gt_asym = λ x y h. ground arith; gt_trans = λ x y z n h k. ground arith }
