-- ===== src/Exchange/Matching/Process.antt =====
-- `process` on every type of order, and what `on_tick` does to a triggered stop order.
use velox_quant.Base.{
  ◌<◌, ◌≡◌, ◌≢◌, refl, sym, none, some, List, ◌∷◌, inl, inr, lookup, insert, lookup-insert,
  lookup-erase, arith, ◌≤◌, ◌⊎◌, add64,
}
use velox_quant.MarketData.Types.{Price, Quantity, Timestamp, Side, SymbolId, Tick}
use velox_quant.Exchange.Types.{Order, OrderId, OrderType, OrderStatus}
use velox_quant.Exchange.Book
use velox_quant.Exchange.Book.{OrderBook}
use velox_quant.Exchange.Book.Invariant.{BookOk}
use velox_quant.Exchange.Book.Preserve.{add-BookOk}
use velox_quant.Exchange.Matching.Sweep.{Engine, Result, ok, err, dangling, emit_report}
use velox_quant.Exchange.Matching.{
  process, dispatch, register_stop, activate, activate_all, on_tick, triggered, last_of,
  activate_in, unlist, put_order,
}
use velox_quant.Exchange.Matching.Orders.{
  IsNew, Killed, Completed, reachable, match_fok-all_or_nothing,
}
use velox_quant.Exchange.Matching.Immediate.{match_market-IsImmediate, match_ioc-IsImmediate}
use velox_quant.Exchange.Matching.Limit.{match_limit-IsLimit, add-others}

-- The engine accepted the order: the book is well formed, and no id but the order's is new in it.
pub record IsProcessed (order : Order) (e : Engine) (r : Order × Engine) : Type 0 where
  pub book : BookOk r.1.book
  pub others :
      (k : OrderId) → k ≢ order.id → lookup k e.book.orders ≡ none → lookup k r.1.book.orders ≡ none

abbrev Handles : Order → Engine → Result (Order × Engine) → Type 0
Handles order e out = (r : Order × Engine) × (out ≡ ok r) × IsProcessed order e r

abbrev counted : Engine → Engine
counted e = record e { orders_processed = add64 e.orders_processed 1 }

stop_registered :
    (order : Order) (e : Engine)
    → IsNew order e
    → lookup order.id e.book.orders ≡ none
    → IsProcessed order e (order, emit_report order (register_stop order e))
unfolding register_stop emit_report
stop_registered order e n fresh =
    let stored : Order = record order { limit_price = order.stop_price } in
    record {
      book =
          add-BookOk stored e.book
            (record {
              fresh = fresh;
              small = n.small;
              left = omega (arith, n.untouched, n.some_qty);
            })
            n.book;
      others = add-others stored e.book;
    }

fok-IsProcessed :
    (order : Order) (e : Engine) (r : Order × Engine)
    → BookOk e.book
    → ((reachable order order.limit_price e.book < order.qty) × Killed order e r)
      ⊎ ((order.qty ≤ reachable order order.limit_price e.book) × Completed order e r)
    → IsProcessed order e r
fok-IsProcessed order e r v (inl (_, (_, _, _, same))) = record {
  book = rw same v;
  others = λ k _ h. rw same h;
}
fok-IsProcessed order e r v (inr (_, (_, _, good, others))) = record {
  book = good;
  others = λ k _ h. others k h;
}

module _ (commission : Quantity → Price → Price) where
  dispatch-IsProcessed :
      (t : OrderType) (order : Order) (now : Timestamp) (e : Engine)
      → IsNew order e
      → lookup order.id e.book.orders ≡ none
      → Handles order e (dispatch commission t order now e)
  unfolding dispatch
  dispatch-IsProcessed OrderType.market order now e n fresh =
      let (r, er, i) = match_market-IsImmediate commission order now e n in
      (r, er, record { book = i.book; others = λ k _ h. i.rests_nothing k h })
  dispatch-IsProcessed OrderType.limit order now e n fresh =
      let (r, er, i) = match_limit-IsLimit commission order now e n fresh in
      (r, er, record { book = i.book; others = i.others })
  dispatch-IsProcessed OrderType.ioc order now e n fresh =
      let (r, er, i) = match_ioc-IsImmediate commission order now e n in
      (r, er, record { book = i.book; others = λ k _ h. i.rests_nothing k h })
  dispatch-IsProcessed OrderType.fok order now e n fresh =
      let (r, er, i) = match_fok-all_or_nothing commission order now e n in
      (r, er, fok-IsProcessed order e r n.book i)
  dispatch-IsProcessed OrderType.stop order now e n fresh =
      (_, refl, stop_registered order e n fresh)

  -- `process` ends on every new order with a new id, keeps the book well formed, and brings no
  -- other id into it.
  pub process-IsProcessed :
      (order : Order) (now : Timestamp) (e : Engine)
      → IsNew order e
      → lookup order.id e.book.orders ≡ none
      → (r : Order × Engine) × (process commission order now e ≡ ok r) × IsProcessed order e r
  unfolding process
  process-IsProcessed order now e n fresh =
      let (r, er, i) =
        dispatch-IsProcessed order.type (record order { submit_ts = now }) now (counted e)
          (record {
            book = n.book;
            untouched = n.untouched;
            some_qty = n.some_qty;
            small = n.small;
          })
          fresh in
      (r, er, record { book = i.book; others = i.others })

-- Cancelling an order that rests erases it from the orders.
find-cancel :
    (b : OrderBook) (oid : OrderId) (o : Order) (s : Side)
    → lookup oid b.order_side ≡ some s
    → lookup oid b.orders ≡ some o
    → Book.find oid (Book.cancel oid b).1 ≡ none
unfolding Book.cancel Book.find
find-cancel b oid o s tagged found =
    rw (tagged, Book.cancel)
      (rw (found, Book.cancel) (ground (arith, lookup-erase oid oid b.orders)))

unlist-book : (sym : SymbolId) (oid : OrderId) (e : Engine) → (unlist sym oid e).book ≡ e.book
unfolding unlist
unlist-book sym oid e = ground arith

activate_in-dangling :
    (commission : Quantity → Price → Price) (oid : OrderId) (now : Timestamp) (e : Engine)
    (o : Order) (s : Side)
    → lookup oid e.book.orders ≡ some o
    → lookup oid e.book.order_side ≡ some s
    → activate_in commission oid now e ≡ err dangling
unfolding activate_in Book.find put_order emit_report
activate_in-dangling commission oid now e o s found tagged =
    let t : Order = record o { type = OrderType.market; status = OrderStatus.triggered } in
    let b : OrderBook = (emit_report t (put_order oid t e)).book in
    rw (found, activate_in) (rw (find-cancel b oid t s tagged (self t), activate_in) refl)
  where
    self : (u : Order) → lookup oid (insert oid u e.book.orders) ≡ some u
    self u = ground (arith, lookup-insert oid oid u e.book.orders)

-- A triggered stop order that still rests ends in undefined behaviour: `cancel` erases the order
-- that the code then goes on to use.
pub on_tick-dangling :
    (commission : Quantity → Price → Price) (tick : Tick) (now : Timestamp) (e : Engine)
    (ids : List OrderId) (oid : OrderId) (rest : List OrderId) (o : Order) (s : Side)
    → lookup tick.symbol_id e.stop_orders ≡ some ids
    → triggered (last_of tick) e.book ids ≡ oid ∷ rest
    → lookup oid e.book.orders ≡ some o
    → lookup oid e.book.order_side ≡ some s
    → on_tick commission tick now e ≡ err dangling
unfolding on_tick activate_all activate
on_tick-dangling commission tick now e ids oid rest o s listed trig found tagged =
    rw (listed, on_tick)
      (rw trig (
        rw
          (activate_in-dangling commission oid now (unlist tick.symbol_id oid e) o s
            (rw (unlist-book tick.symbol_id oid e) found)
            (rw (unlist-book tick.symbol_id oid e) tagged))
          refl))
