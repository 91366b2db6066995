-- ===== src/Portfolio.antt =====
-- The accounting of portfolio/: positions of one symbol, and the portfolio that holds them.
pub mod Double
pub mod Position
pub mod Account
mod Tests
