-- ===== src/Flavor.antt =====
-- pkg/providers/instancetype/instancetype.go: the flavors of the catalogue, and what a machine of each
-- holds.
pub mod Sizing
pub mod Numbers
pub mod Price
pub mod Names
pub mod Overrides
pub mod Reports
pub mod TypeProvider
