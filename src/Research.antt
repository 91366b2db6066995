-- ===== src/Research.antt =====
-- research/: the windows of the walk-forward test.
pub mod Scan
pub mod Windows
mod Tests
