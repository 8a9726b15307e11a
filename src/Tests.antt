-- ===== src/Tests.antt =====
-- Concrete inputs on which the theorems of the development apply.
mod Fixtures
mod Arithmetic
mod Quantities
mod Flavors
mod Machines
mod Cloud
mod Classes
mod Provider
mod Launches
mod Controllers
