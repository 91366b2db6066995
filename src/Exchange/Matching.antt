-- ===== src/Exchange/Matching.antt =====
-- exchange/include/exchange/matching_engine.hpp and exchange/src/matching_engine.cpp. The engine
-- owns its book here. The calls of `fill_cb_` and `report_cb_`, which the router always registers,
-- are the `log`, newest first. `exec_sim_.compute_commission` is the parameter `commission`.
pub mod Sweep
pub mod Available
pub mod Hit
pub mod Step
pub mod Loop
pub mod Check
pub mod Orders
pub mod Immediate
pub mod Limit
pub mod Process
use velox_quant.Base.{
  ℕ, ◌+◌, Bool, true, false, Option, none, some, List, [], ◌∷◌, ◌++◌, ltb, ◌==◌, if◌then◌else◌,
  Assoc, lookup, insert, ltb_ℤ, pos, add64, ◌||◌, not,
}
use velox_quant.MarketData.Types.{Price, Quantity, Timestamp, SymbolId, Tick}
use velox_quant.Exchange.Types.{
  Order, OrderId, OrderType, OrderStatus, RejectReason, leaves_qty, is_done, is_buy, is_sell,
}
use velox_quant.Exchange.Book.{OrderBook}
use velox_quant.Exchange.Book
use Sweep.{
  Engine, Result, ok, err, Fault, no_fuel, dangling, ◌>>=◌, emit_report, SweepState, sweep_contra,
  sweep_check,
}

unfoldable pub cancel_residual : Order → Timestamp → Order
cancel_residual order now =
    if order.filled_qty == 0
    then record order { status = OrderStatus.cancelled; last_fill_ts = now }
    else (if ltb order.filled_qty order.qty
        then record order { status = OrderStatus.cancelled; last_fill_ts = now }
        else record order { last_fill_ts = now })

-- The residual of a limit order rests in the book, or is cancelled.
unfoldable pub settle : Order → Timestamp → Bool → Engine → Order × Engine
settle order now true e =
    let (order', book') = Book.add order e.book in (order', record e { book = book' })
settle order now false e = (cancel_residual order now, e)

stops_for : SymbolId → Engine → List OrderId
stops_for sym e = elim (lookup sym e.stop_orders) [ none ↦ [] | some ids ↦ ids ]

-- The stored copy borrows `limit_price` for the trigger price.
unfoldable pub register_stop : Order → Engine → Engine
unfolding stops_for
register_stop order e =
    let stored : Order = record order { limit_price = order.stop_price } in
    record e {
      book = (Book.add stored e.book).1;
      stop_orders =
          insert order.symbol_id (stops_for order.symbol_id e ++ order.id ∷ []) e.stop_orders;
    }

-- Is a resting stop touched at the price `last`?
unfoldable pub killed : Order → Order
killed order = record order {
  status = OrderStatus.rejected;
  reject_reason = RejectReason.insufficient_liquidity;
}

unfoldable pub touched : Price → Order → Bool
touched last o =
    (if is_buy o then not (ltb_ℤ last o.stop_price) else false)
    || (if is_sell o then not (ltb_ℤ o.stop_price last) else false)

unfoldable pub triggered : Price → OrderBook → List OrderId → List OrderId
triggered last b [] = []
triggered last b (oid ∷ ids) =
    let rest = triggered last b ids in
    elim (Book.find oid b) [ none ↦ rest | some o ↦ if touched last o then oid ∷ rest else rest ]

-- `std::remove` and `erase`: every occurrence goes.
unfoldable pub remove_id : OrderId → List OrderId → List OrderId
remove_id oid [] = []
remove_id oid (x ∷ ids) = let rest = remove_id oid ids in if x == oid then rest else x ∷ rest

unfoldable pub unlist : SymbolId → OrderId → Engine → Engine
unlist sym oid e = elim (lookup sym e.stop_orders) [
  | none ↦ e
  | some ids ↦ record e { stop_orders = insert sym (remove_id oid ids) e.stop_orders }
]

unfoldable pub put_order : OrderId → Order → Engine → Engine
put_order oid o e =
    let b = e.book in record e { book = record b { orders = insert oid o b.orders } }

unfoldable pub last_of : Tick → Price
last_of tick = if ltb_ℤ (pos 0) tick.last_price then tick.last_price else tick.bid_price

module _ (commission : Quantity → Price → Price) where
  unfoldable pub match_market : Order → Timestamp → Engine → Result (Order × Engine)
  match_market order now e = do
    s ← sweep_contra commission order now (pos 0) e
    let order' = if ltb 0 (leaves_qty s.order) then cancel_residual s.order now else s.order
    ok (order', emit_report order' s.engine)

  unfoldable pub match_limit : Order → Timestamp → Bool → Engine → Result (Order × Engine)
  match_limit order now rest_on_book e = do
    s ← sweep_contra commission order now order.limit_price e
    let settled : Order × Engine =
        if ltb 0 (leaves_qty s.order)
        then settle s.order now rest_on_book s.engine
        else (s.order, s.engine)
    ok (settled.0, if is_done settled.0 then settled.1 else emit_report settled.0 settled.1)

  unfoldable pub match_ioc : Order → Timestamp → Engine → Result (Order × Engine)
  match_ioc order now e = do
    r ← match_limit (record order { type = OrderType.limit }) now false e
    ok (record (r.0) { type = OrderType.ioc }, r.1)

  unfoldable pub match_fok : Order → Timestamp → Engine → Result (Order × Engine)
  match_fok order now e =
      if ltb (sweep_check order order.limit_price e.book) order.qty
      then ok (killed order, emit_report (killed order) e)
      else (do
        s ←
            sweep_contra commission (record order { type = OrderType.limit }) now order.limit_price
              e
        let order' : Order = record (s.order) { type = OrderType.fok }
        ok (order', emit_report order' s.engine))

  unfoldable pub dispatch : OrderType → Order → Timestamp → Engine → Result (Order × Engine)
  dispatch OrderType.market order now e = match_market order now e
  dispatch OrderType.limit order now e = match_limit order now true e
  dispatch OrderType.ioc order now e = match_ioc order now e
  dispatch OrderType.fok order now e = match_fok order now e
  dispatch OrderType.stop order now e = ok (order, emit_report order (register_stop order e))

  unfoldable pub process : Order → Timestamp → Engine → Result (Order × Engine)
  process order now e =
      dispatch order.type (record order { submit_ts = now }) now
        (record e { orders_processed = add64 e.orders_processed 1 })

  -- One triggered stop. `cancel` erases the order that `ord` points to, and the code goes on to
  -- write and to sweep through `ord`: undefined behaviour, `dangling`. Only where `cancel` finds
  -- no side entry does the object live on; it is then in no queue, so that the sweep does not
  -- meet it as a resting order, and it is written back at the end.
  unfoldable pub activate_in : OrderId → Timestamp → Engine → Result Engine
  unfolding put_order
  activate_in oid now e = elim (Book.find oid e.book) [
    | none ↦ ok e
    | some old ↦
        let ord : Order = record old { type = OrderType.market; status = OrderStatus.triggered } in
        let e1 = emit_report ord (put_order oid ord e) in
        let after = (Book.cancel oid e1.book).1 in
        elim (Book.find oid after) [
          | none ↦ err dangling
          | some live ↦ (do
            r ←
                match_market (record live { status = OrderStatus.new }) now
                  (record e1 { book = after })
            ok (put_order oid (r.0) (r.1)))
        ]
  ]

  unfoldable pub activate : SymbolId → OrderId → Timestamp → Engine → Result Engine
  activate sym oid now e = activate_in oid now (unlist sym oid e)

  unfoldable pub activate_all : SymbolId → List OrderId → Timestamp → Engine → Result Engine
  activate_all sym [] now e = ok e
  activate_all sym (oid ∷ ids) now e = activate sym oid now e >>= activate_all sym ids now

  unfoldable pub on_tick : Tick → Timestamp → Engine → Result Engine
  on_tick tick now e = elim (lookup tick.symbol_id e.stop_orders) [
    | none ↦ ok e
    | some ids ↦ activate_all tick.symbol_id (triggered (last_of tick) e.book ids) now e
  ]
