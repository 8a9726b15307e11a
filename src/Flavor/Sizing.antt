-- ===== src/Flavor/Sizing.antt =====
-- pkg/providers/instancetype/instancetype.go: `Sizing` and its order. Sizes are natural numbers: a
-- flavor with a cpu or a memory that is not positive is refused before it is served.
use karpenter_provider_cleve.Base.{ℕ, Bool, ◌&&◌, leb}

pub record Sizing : Type 0 where
  pub cpu : ℕ
  pub memory_ki : ℕ

-- `AtLeast`
unfoldable pub at_least : Sizing → Sizing → Bool
at_least s o = leb o.cpu s.cpu && leb o.memory_ki s.memory_ki
