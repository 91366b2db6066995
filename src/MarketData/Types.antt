-- ===== src/MarketData/Types.antt =====
-- market_data/include/market_data/types.hpp. Prices and times are signed 64-bit in the source:
-- here they are integers, and where the code computes with them the result is the exact one.
use velox_quant.Base.{ℕ, ℤ}

abbrev pub Timestamp : Type 0
Timestamp = ℤ

abbrev pub Price : Type 0
Price = ℤ

abbrev pub Quantity : Type 0
Quantity = ℕ

abbrev pub SymbolId : Type 0
SymbolId = ℕ

pub data Side : Type 0 where
  buy sell unknown : Side

pub record Tick : Type 0 where
  pub recv_ts : Timestamp
  pub exch_ts : Timestamp
  pub symbol_id : SymbolId
  pub bid_price : Price
  pub ask_price : Price
  pub last_price : Price
  pub bid_size : Quantity
  pub ask_size : Quantity
  pub last_size : Quantity
  pub seq_no : ℕ

pub record Bar : Type 0 where
  pub recv_ts : Timestamp
  pub open_ts : Timestamp
  pub close_ts : Timestamp
  pub symbol_id : SymbolId
  pub opening : Price
  pub high : Price
  pub low : Price
  pub close : Price
  pub vwap : Price
  pub volume : Quantity
  pub trade_count : ℕ
