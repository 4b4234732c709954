-- ===== src/Examples.antt =====
-- Concrete values for the theorems of the other modules.
pub mod Data
pub mod Rings
pub mod Io
pub mod Messages
pub mod Reports
pub mod Sessions
pub mod Words
pub mod Both
pub mod Runs
