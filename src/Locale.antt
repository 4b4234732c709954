-- ===== src/Locale.antt =====
-- iperf/src/iperf_locale.c: the texts of the program.
pub mod Usage
pub mod Settings
pub mod Reports
pub mod Warnings
