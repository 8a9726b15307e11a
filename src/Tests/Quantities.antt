-- ===== src/Tests/Quantities.antt =====
-- Integers in place of resource.Quantity, each the difference of two natural numbers.
use karpenter_provider_cleve.Base.{
  ℕ, ◌+◌, ◌-◌, ◌≡◌, refl, Option, none, some, [], ◌∷◌, Text, length, ltb, leb, ◌==◌, if◌then◌else◌,
  arith,
}
use karpenter_provider_cleve.Flavor.Numbers.{
  Signed, nonneg, negative, Quantities, IsOrdered, IsPointwise, IsPrinted,
}

abbrev pub Difference : Type 0
Difference = ℕ × ℕ

abbrev value_of : Difference → Signed
value_of (a, b) = if leb b a then nonneg (a - b) else negative (b - a - 1)

abbrev of_signed : Signed → Difference
of_signed (nonneg n) = (n, 0)
of_signed (negative n) = (0, n + 1)

abbrev parsed_text : Text → Option Difference
parsed_text (a ∷ b ∷ []) = some (a, b)
parsed_text s = none

abbrev parse_text : Text → Difference
parse_text s = elim (parsed_text s) [ none ↦ (length s, 0) | some x ↦ x ]

abbrev less : Difference → Difference → Difference
less (a, b) (c, e) = (a + e, b + c)

abbrev both : Option Difference → Option Difference → Option Difference
both none y = y
both (some x) none = some x
both (some (a, b)) (some (c, e)) = some (a + c, b + e)

abbrev prefer : Option Difference → Option Difference → Option Difference
prefer x none = x
prefer x (some y) = some y

abbrev left_over : Option Difference → Option Difference → Option Difference
left_over none y = none
left_over (some x) none = some x
left_over (some x) (some y) = some (less x y)

abbrev pub differences : Quantities Difference ℕ
differences = record {
  below = λ x y. ltb (x.0 + y.1) (y.0 + x.1);
  is_zero = λ x. x.0 == x.1;
  nought = (0, 0);
  of_int = of_signed;
  value = value_of;
  approximate = λ x. x.0 - x.1;
  parse = parse_text;
  try_parse = parsed_text;
  print = λ x. x.0 ∷ x.1 ∷ [];
  minus = less;
  subtract = λ l m r. left_over (l r) (m r);
  total = λ o r. both (o.kube_reserved r) (both (o.system_reserved r) (o.eviction_threshold r));
  assign = λ l m r. prefer (l r) (m r);
}

pub differences-IsOrdered : IsOrdered differences
differences-IsOrdered = record {
  below_asym = λ x y h. ground arith;
  below_trans = λ x y z h k. ground arith;
}

both-none : (x : Option Difference) → both x none ≡ x
both-none none = refl
both-none (some x) = refl

prefer-eq :
    (x y : Option Difference)
    → prefer x y ≡ (elim y as (λ _. Option Difference) [ none ↦ x | some z ↦ some z ])
prefer-eq x none = refl
prefer-eq x (some y) = refl

left_over-eq :
    (x y : Option Difference)
    → left_over x y ≡ (elim x as (λ _. Option Difference) [
      | none ↦ none
      | some a ↦ elim y as (λ _. Option Difference) [ none ↦ some a | some b ↦ some (less a b) ]
    ])
left_over-eq none y = refl
left_over-eq (some x) none = refl
left_over-eq (some x) (some y) = refl

pub differences-IsPointwise : IsPointwise differences
differences-IsPointwise = record {
  assign_at = λ l m r. prefer-eq (l r) (m r);
  subtract_at = λ l m r. left_over-eq (l r) (m r);
  total_kube = λ o r s e. rw (s, e) (both-none (o.kube_reserved r));
  minus_minus = λ x y. (ground arith, ground arith);
}

pub differences-IsPrinted : IsPrinted differences
differences-IsPrinted = record { parse_print = λ x. (x, refl, refl, ground arith, ground arith) }
