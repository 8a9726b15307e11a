-- ===== src/Flavor/Names.antt =====
-- pkg/providers/instancetype/instancetype.go: `FlavorNamePattern`, ^(M|([2-9]?X)?[SL])$.
use karpenter_provider_cleve.Base.{ℕ, Bool, false, ◌&&◌, ◌||◌, [], ◌∷◌, Text, leb, ◌==◌}

-- `[SL]`
abbrev pub is_size : ℕ → Bool
is_size c = c == b'S' || c == b'L'

-- `[2-9]`
abbrev pub is_multiple : ℕ → Bool
is_multiple c = leb b'2' c && leb c b'9'

-- `flavorNameRegexp.MatchString`
unfoldable pub is_flavor_name : Text → Bool
is_flavor_name [] = false
is_flavor_name (a ∷ []) = a == b'M' || is_size a
is_flavor_name (a ∷ b ∷ []) = a == b'X' && is_size b
is_flavor_name (a ∷ b ∷ c ∷ []) = is_multiple a && b == b'X' && is_size c
is_flavor_name (a ∷ b ∷ c ∷ e ∷ s) = false
