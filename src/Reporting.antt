-- ===== src/Reporting.antt =====
-- The command line parser and the configuration of reporting/.
pub mod Cli
pub mod Config
