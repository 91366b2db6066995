-- ===== src/Exchange/Types.antt =====
-- exchange/include/exchange/types.hpp: orders, fills and reports.
use velox_quant.Base.{ℕ, Bool, true, false, sub64, pos}
use velox_quant.MarketData.Types.{Price, Quantity, Timestamp, SymbolId, Side, buy, sell}

abbrev pub OrderId : Type 0
OrderId = ℕ

abbrev pub FillId : Type 0
FillId = ℕ

abbrev pub invalid_order_id : OrderId
invalid_order_id = 0

pub data OrderType : Type 0 where
  market limit stop ioc fok : OrderType

pub data TimeInForce : Type 0 where
  gtc day ioc fok : TimeInForce

pub data OrderStatus : Type 0 where
  new partially_filled filled cancelled rejected pending_cancel triggered : OrderStatus

pub data RejectReason : Type 0 where
  none insufficient_liquidity invalid_price invalid_quantity unknown_symbol : RejectReason
  duplicate_order_id market_closed : RejectReason

pub record Order : Type 0 where
  pub id : OrderId
  pub symbol_id : SymbolId
  pub side : Side
  pub type : OrderType
  pub tif : TimeInForce
  pub limit_price : Price
  pub stop_price : Price
  pub qty : Quantity
  pub filled_qty : Quantity
  pub status : OrderStatus
  pub reject_reason : RejectReason
  pub submit_ts : Timestamp
  pub last_fill_ts : Timestamp
  pub queue_pos : ℕ

-- `uint64_t` subtraction.
abbrev pub leaves_qty : Order → Quantity
leaves_qty o = sub64 o.qty o.filled_qty

status_is_done : OrderStatus → Bool
status_is_done OrderStatus.filled = true
status_is_done OrderStatus.cancelled = true
status_is_done OrderStatus.rejected = true
status_is_done _ = false

unfoldable pub is_done : Order → Bool
unfolding status_is_done
is_done o = status_is_done o.status

unfoldable pub side_is_buy : Side → Bool
side_is_buy buy = true
side_is_buy _ = false

side_is_sell : Side → Bool
side_is_sell sell = true
side_is_sell _ = false

unfoldable pub is_buy : Order → Bool
unfolding side_is_buy
is_buy o = side_is_buy o.side

unfoldable pub is_sell : Order → Bool
unfolding side_is_sell
is_sell o = side_is_sell o.side

pub record Fill : Type 0 where
  pub id : FillId
  pub order_id : OrderId
  pub symbol_id : SymbolId
  pub side : Side
  pub fill_price : Price
  pub fill_qty : Quantity
  pub commission : Price
  pub slippage : Price
  pub timestamp : Timestamp
  pub is_aggressive : Bool

-- `Fill{}` and `Order{}`: every field zero or its default.
abbrev pub default_fill : Fill
default_fill = record {
  id = 0;
  order_id = 0;
  symbol_id = 0;
  side = buy;
  fill_price = pos 0;
  fill_qty = 0;
  commission = pos 0;
  slippage = pos 0;
  timestamp = pos 0;
  is_aggressive = false;
}

abbrev pub default_order : Order
default_order = record {
  id = invalid_order_id;
  symbol_id = 0;
  side = buy;
  type = OrderType.market;
  tif = TimeInForce.gtc;
  limit_price = pos 0;
  stop_price = pos 0;
  qty = 0;
  filled_qty = 0;
  status = OrderStatus.new;
  reject_reason = RejectReason.none;
  submit_ts = pos 0;
  last_fill_ts = pos 0;
  queue_pos = 0;
}

pub record ExecutionReport : Type 0 where
  pub order : Order
  pub last_fill : Fill
  pub has_fill : Bool

pub record PriceLevel : Type 0 where
  pub price : Price
  pub total_qty : Quantity
  pub order_count : ℕ
