-- ===== src/Scenario.antt =====
-- Fault scenarios: src/scenario.rs.
pub mod Types
pub mod Catalog
pub mod Controller
pub mod Tests
mod CallTests
