-- ===== src/MarketData.antt =====
-- market_data/: its types, the store and the replay engine.
pub mod Types
pub mod Store
pub mod Portal
mod Tests
pub mod Replay
