-- ===== src/Flavor/Price.antt =====
-- pkg/providers/instancetype/instancetype.go: the sizing table and `RelativePrice`, in float64.
use karpenter_provider_cleve.Base.{
  ℕ, ◌≤◌, ◌≡◌, false, Option, [], ◌∷◌, Text, codes, Map, lookup, arith,
}
use karpenter_provider_cleve.Flavor.Sizing.{Sizing}
use karpenter_provider_cleve.Flavor.Numbers.{Doubles, IsMonotone}

-- `FlavorSizing`
abbrev pub flavor_sizing : Map Sizing
flavor_sizing =
    (codes "2XS", record { cpu = 4; memory_ki = 3_715_344 })
    ∷ (codes "XS", record { cpu = 6; memory_ki = 7_553_664 })
    ∷ (codes "S", record { cpu = 8; memory_ki = 11_385_832 })
    ∷ (codes "M", record { cpu = 10; memory_ki = 15_229_256 })
    ∷ (codes "L", record { cpu = 12; memory_ki = 22_896_304 })
    ∷ (codes "XL", record { cpu = 16; memory_ki = 30_584_176 })
    ∷ []

-- `SizingByName`
unfoldable pub sizing_by_name : Text → Option Sizing
sizing_by_name name = lookup name flavor_sizing

-- `priceReference`
abbrev pub price_reference : Sizing
price_reference = record { cpu = 4; memory_ki = 3_715_344 }

module _ {W : Type 0} (d : Doubles W) where
  -- `RelativePrice`
  unfoldable pub relative_price : ℕ → ℕ → W
  relative_price cpu memory_ki =
      let price =
        d.plus (d.over (d.times d.third (d.of_count cpu)) (d.of_count price_reference.cpu)) (
          d.over (d.times d.two_thirds (d.of_count memory_ki))
            (d.of_count price_reference.memory_ki)) in
      d.over (d.round (d.times price (d.of_count 10_000))) (d.of_count 10_000)

  -- With the monotone operations of float64: a flavor at least as large in cpu and in memory is never
  -- cheaper, the roundings included.
  pub relative_price_mono :
      (cpu cpu' memory_ki memory_ki' : ℕ)
      → IsMonotone d
      → cpu ≤ cpu'
      → memory_ki ≤ memory_ki'
      → d.gt (relative_price cpu memory_ki) (relative_price cpu' memory_ki') ≡ false
  unfolding relative_price
  relative_price_mono cpu cpu' memory_ki memory_ki' m h k =
      let a = m.over_mono 4 _ _ (omega arith) (m.third_mono _ _ (m.of_count_mono cpu cpu' h)) in
      let b =
        m.over_mono 3_715_344 _ _ (omega arith)
          (m.two_thirds_mono _ _ (m.of_count_mono memory_ki memory_ki' k)) in
      m.over_mono 10_000 _ _ (omega arith)
        (m.round_mono _ _ (m.scale_mono 10_000 _ _ (m.plus_mono _ _ _ _ a b)))
