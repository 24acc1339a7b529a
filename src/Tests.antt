-- ===== src/Tests.antt =====
-- Concrete runs of the program, and the theorems at concrete inputs.
mod Fixture
mod Parsing
mod Processing
mod Deliveries
mod Migrating
mod Serving
mod Starting
mod Ending
mod Routing
mod Interleaving
mod Overlapping
