-- ===== src/Exchange/Router.antt =====
-- exchange/include/exchange/order_router.hpp and exchange/src/order_router.cpp. A symbol's context
-- is its engine, which owns its book. The callbacks of the router's client are the `log`, newest
-- first; each call of an engine starts from an empty log of its own, which is then passed on.
pub mod Invariant
use velox_quant.Base.{
  ℕ, suc, Bool, true, false, Option, none, some, List, [], ◌∷◌, ◌++◌, ◌==◌, if◌then◌else◌, Assoc,
  lookup, contains, insert, erase, add64, ltb_ℤ, pos, not,
}
use velox_quant.MarketData.Types.{Price, Quantity, Timestamp, SymbolId, Side, unknown, Tick}
use velox_quant.Exchange.Types.{
  Order, OrderId, OrderType, OrderStatus, RejectReason, TimeInForce, default_order, default_fill,
  invalid_order_id,
}
use velox_quant.Exchange.Book
use velox_quant.Exchange.Book.{OrderBook}
use velox_quant.Exchange.Matching.Sweep.{Engine, Result, ok, ◌>>=◌, Event, filled, reported}
use velox_quant.Exchange.Matching

pub record Router : Type 0 where
  pub symbols : Assoc Engine
  pub order_symbol_map : Assoc SymbolId
  pub next_order_id : OrderId
  pub orders_submitted : ℕ
  pub total_fills : ℕ
  pub log : List Event

abbrev pub fresh_router : Router
fresh_router = record {
  symbols = [];
  order_symbol_map = [];
  next_order_id = 1;
  orders_submitted = 0;
  total_fills = 0;
  log = [];
}

fresh_engine : SymbolId → Engine
unfolding Book.init
fresh_engine sym = record {
  book = Book.init sym;
  next_fill_id = 1;
  fills_generated = 0;
  orders_processed = 0;
  stop_orders = [];
  log = [];
}

-- `none` is the exception of a symbol that is registered already.
unfoldable pub register_symbol : SymbolId → Router → Option Router
unfolding fresh_engine
register_symbol sym r =
    if contains sym r.symbols
    then none
    else some (record r { symbols = insert sym (fresh_engine sym) r.symbols })

unfoldable pub has_symbol : SymbolId → Router → Bool
has_symbol sym r = contains sym r.symbols

-- The price that an order of the type must give.
unfoldable pub price_ok : OrderType → Order → Bool
price_ok OrderType.limit o = ltb_ℤ (pos 0) o.limit_price
price_ok OrderType.ioc o = ltb_ℤ (pos 0) o.limit_price
price_ok OrderType.fok o = ltb_ℤ (pos 0) o.limit_price
price_ok OrderType.stop o = ltb_ℤ (pos 0) o.stop_price
price_ok OrderType.market o = true

unfoldable pub known_side : Side → Bool
known_side unknown = false
known_side _ = true

unfoldable pub validate : Order → Router → Bool
unfolding known_side price_ok
validate o r =
    if o.qty == 0
    then false
    else (if not (contains o.symbol_id r.symbols)
        then false
        else (if not (known_side o.side) then false else price_ok o.type o))

-- `report_cb_({.order = order})`
unfoldable pub report : Order → Router → Router
report o r = record r {
  log = reported (record { order = o; last_fill = default_fill; has_fill = false }) ∷ r.log;
}

unfoldable pub count_fills : List Event → ℕ
count_fills [] = 0
count_fills (filled _ ∷ es) = suc (count_fills es)
count_fills (reported _ ∷ es) = count_fills es

-- The callbacks of `wire_callbacks`: each fill is counted, and all is passed on.
unfoldable pub collect : SymbolId → Engine → Router → Router
collect sym e r = record r {
  symbols = insert sym (record e { log = [] }) r.symbols;
  total_fills = add64 r.total_fills (count_fills e.log);
  log = e.log ++ r.log;
}

unfoldable pub reject : Order → Router → Order
reject o r = record o {
  status = OrderStatus.rejected;
  reject_reason =
      if contains o.symbol_id r.symbols
      then RejectReason.invalid_quantity
      else RejectReason.unknown_symbol;
}

-- `order_symbol_map_.erase` and the report of an order that only the id describes.
unfoldable pub cancelled : OrderId → Timestamp → SymbolId → Engine → OrderBook → Router → Router
cancelled id now sym e b r =
    let r' = record r { symbols = insert sym (record e { book = b }) r.symbols } in
    record (report
      (record default_order { id = id; status = OrderStatus.cancelled; last_fill_ts = now }) r') {
        order_symbol_map = erase id r.order_symbol_map;
      }

unfoldable pub cancel : OrderId → Timestamp → Router → Bool × Router
cancel id now r = elim (lookup id r.order_symbol_map) [
  | none ↦ (false, r)
  | some sym ↦ elim (lookup sym r.symbols) [
    | none ↦ (false, r)
    | some e ↦
        let (done, b) = Book.cancel id e.book in
        if done then (true, cancelled id now sym e b r) else (false, r)
  ]
]

unfoldable pub book : SymbolId → Router → Option OrderBook
book sym r = elim (lookup sym r.symbols) [ none ↦ none | some e ↦ some e.book ]

-- The order and the router after the id is assigned.
unfoldable pub stamp : Order → Timestamp → Router → Order × Router
stamp o now r = (
  record o { id = r.next_order_id; submit_ts = now; status = OrderStatus.new },
  record r {
    next_order_id = add64 r.next_order_id 1;
    orders_submitted = add64 r.orders_submitted 1;
    order_symbol_map = insert r.next_order_id o.symbol_id r.order_symbol_map;
  },
)

abbrev limit_order : SymbolId → Side → Price → Quantity → TimeInForce → Order
limit_order sym side price qty tif = record default_order {
  symbol_id = sym;
  side = side;
  type = OrderType.limit;
  tif = tif;
  limit_price = price;
  qty = qty;
}

abbrev market_order : SymbolId → Side → Quantity → Order
market_order sym side qty = record default_order {
  symbol_id = sym;
  side = side;
  type = OrderType.market;
  qty = qty;
}

abbrev stop_order : SymbolId → Side → Price → Quantity → Order
stop_order sym side price qty = record default_order {
  symbol_id = sym;
  side = side;
  type = OrderType.stop;
  stop_price = price;
  qty = qty;
}

abbrev ioc_order : SymbolId → Side → Price → Quantity → Order
ioc_order sym side price qty = record default_order {
  symbol_id = sym;
  side = side;
  type = OrderType.ioc;
  tif = TimeInForce.ioc;
  limit_price = price;
  qty = qty;
}

abbrev fok_order : SymbolId → Side → Price → Quantity → Order
fok_order sym side price qty = record default_order {
  symbol_id = sym;
  side = side;
  type = OrderType.fok;
  tif = TimeInForce.fok;
  limit_price = price;
  qty = qty;
}

module _ (commission : Quantity → Price → Price) where
  -- `ctx->engine->process(order, now)`; a valid order has a context.
  route : Order → Timestamp → Router → Option Engine → Result (OrderId × Order × Router)
  route o now r none = ok (o.id, o, r)
  route o now r (some e) = do
    out ← Matching.process commission o now (record e { log = [] })
    ok (o.id, out.0, collect o.symbol_id (out.1) r)

  unfoldable pub submit : Order → Timestamp → Router → Result (OrderId × Order × Router)
  unfolding route
  submit o now r =
      if validate o r
      then (let (o', r') = stamp o now r in route o' now r' (lookup o'.symbol_id r'.symbols))
      else ok (invalid_order_id, reject o r, report (reject o r) r)

  pub submit_limit :
      SymbolId
      → Side
      → Price
      → Quantity
      → TimeInForce
      → Timestamp
      → Router
      → Result (OrderId × Order × Router)
  submit_limit sym side price qty tif now r = submit (limit_order sym side price qty tif) now r

  pub submit_market :
      SymbolId → Side → Quantity → Timestamp → Router → Result (OrderId × Order × Router)
  submit_market sym side qty now r = submit (market_order sym side qty) now r

  pub submit_stop :
      SymbolId → Side → Price → Quantity → Timestamp → Router → Result (OrderId × Order × Router)
  submit_stop sym side price qty now r = submit (stop_order sym side price qty) now r

  pub submit_ioc :
      SymbolId → Side → Price → Quantity → Timestamp → Router → Result (OrderId × Order × Router)
  submit_ioc sym side price qty now r = submit (ioc_order sym side price qty) now r

  pub submit_fok :
      SymbolId → Side → Price → Quantity → Timestamp → Router → Result (OrderId × Order × Router)
  submit_fok sym side price qty now r = submit (fok_order sym side price qty) now r

  unfoldable pub on_tick : Tick → Timestamp → Router → Result Router
  on_tick tick now r = elim (lookup tick.symbol_id r.symbols) [
    | none ↦ ok r
    | some e ↦ (do
      e' ← Matching.on_tick commission tick now (record e { log = [] })
      ok (collect tick.symbol_id e' r))
  ]
