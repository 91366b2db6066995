-- ===== src/Exchange.antt =====
-- exchange/: the order book, the matching engine and the order router.
pub mod Execution
pub mod Types
pub mod Book
pub mod Matching
pub mod Router
pub mod Tests
