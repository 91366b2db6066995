-- ===== src/Exchange/Book.antt =====
-- exchange/include/exchange/order_book.hpp and exchange/src/order_book.cpp. A `BookSide` is the list
-- of its price levels in the order of its comparator; the template's two instances are the values
-- of the first argument, `true` for the bids (`std::greater`) and `false` for the asks.
pub mod Levels
pub mod Invariant
pub mod Frame
pub mod Remove
pub mod Add
pub mod Preserve
pub mod Laws
pub mod Gone
pub mod Position
use velox_quant.Base.{
  ℕ, ◌%◌, ◌^◌, min, Bool, true, false, Option, none, some, List, [], ◌∷◌, length, ltb, leb, ◌==◌,
  if◌then◌else◌, Assoc, lookup, insert, erase, add64, ℤ, ◌+ℤ◌, ◌-ℤ◌, half_ℤ,
}
use velox_quant.MarketData.Types.{Price, Quantity, SymbolId, Side, buy}
use velox_quant.Exchange.Types.{Order, OrderId, OrderStatus, PriceLevel, leaves_qty}
use Levels.{BookSide, add_order, remove_order, best_price, orders_at}

pub record OrderBook : Type 0 where
  pub symbol_id : SymbolId
  pub bids : BookSide
  pub asks : BookSide
  pub orders : Assoc Order
  pub order_side : Assoc Side

unfoldable pub init : SymbolId → OrderBook
init sym = record { symbol_id = sym; bids = []; asks = []; orders = []; order_side = [] }

-- The shares of the resting orders named in a queue.
unfoldable pub shares_of : Assoc Order → ℕ → List OrderId → ℕ
shares_of orders acc [] = acc
shares_of orders acc (oid ∷ q) =
    shares_of orders (elim (lookup oid orders) [ none ↦ acc | some o ↦ add64 acc (leaves_qty o) ]) q

unfoldable pub shares_in : Assoc Order → Option (List OrderId) → ℕ
shares_in orders none = 0
shares_in orders (some q) = shares_of orders 0 q

-- The updated order, whose `queue_pos` the code writes back to the caller, and the book.
unfoldable pub add_on : Side → Order → OrderBook → Order × OrderBook
add_on buy order b =
    let order' : Order = record order {
      queue_pos = shares_in b.orders (orders_at order.limit_price b.bids);
    } in
    (
      order',
      record b {
        bids = add_order true order.limit_price order.id b.bids;
        order_side = insert order.id order.side b.order_side;
        orders = insert order.id order' b.orders;
      },
    )
add_on _ order b =
    let order' : Order = record order {
      queue_pos = shares_in b.orders (orders_at order.limit_price b.asks);
    } in
    (
      order',
      record b {
        asks = add_order false order.limit_price order.id b.asks;
        order_side = insert order.id order.side b.order_side;
        orders = insert order.id order' b.orders;
      },
    )

unfoldable pub add : Order → OrderBook → Order × OrderBook
add order b = add_on order.side order b

-- `bids_.remove_order(p, id)` for a buy, `asks_.remove_order(p, id)` for any other side.
unfoldable pub remove_from : Side → Price → OrderId → OrderBook → OrderBook
remove_from buy p id b = record b { bids = (remove_order p id b.bids).1 }
remove_from _ p id b = record b { asks = (remove_order p id b.asks).1 }

unfoldable pub cancel : OrderId → OrderBook → Bool × OrderBook
cancel id b = elim (lookup id b.order_side) [
  | none ↦ (false, b)
  | some side ↦ elim (lookup id b.orders) [
    | none ↦ (false, b)
    | some ord ↦
        let b' = remove_from side ord.limit_price id b in
        (true, record b' { order_side = erase id b.order_side; orders = erase id b.orders })
  ]
]

-- `filled_qty` after an execution, capped at `qty`.
unfoldable pub executed : Order → Quantity → Order
executed ord n = record ord { filled_qty = min (add64 ord.filled_qty n) ord.qty }

unfoldable pub reduce_qty : OrderId → Quantity → OrderBook → OrderBook
reduce_qty id n b = elim (lookup id b.orders) [
  | none ↦ b
  | some old ↦
      let ord = executed old n in
      if leb ord.qty ord.filled_qty
      then (let b' = remove_from ord.side ord.limit_price id b in
          record b' {
            orders = insert id (record ord { status = OrderStatus.filled }) b.orders;
            order_side = erase id b.order_side;
          })
      else record b {
        orders = insert id (record ord { status = OrderStatus.partially_filled }) b.orders;
      }
]

unfoldable pub best_bid : OrderBook → Option Price
best_bid b = best_price b.bids

unfoldable pub best_ask : OrderBook → Option Price
best_ask b = best_price b.asks

side_best_qty : BookSide → Assoc Order → Option Quantity
side_best_qty [] orders = none
side_best_qty ((_, q) ∷ _) orders = some (shares_of orders 0 q)

pub best_bid_qty : OrderBook → Option Quantity
unfolding side_best_qty
best_bid_qty b = side_best_qty b.bids b.orders

pub best_ask_qty : OrderBook → Option Quantity
unfolding side_best_qty
best_ask_qty b = side_best_qty b.asks b.orders

-- Signed division by 2 rounds towards zero.
pub mid_price : OrderBook → Option Price
mid_price b = elim (best_bid b) [
  | none ↦ none
  | some bid ↦ elim (best_ask b) [ none ↦ none | some ask ↦ some (half_ℤ (bid +ℤ ask)) ]
]

pub spread : OrderBook → Option Price
spread b = elim (best_bid b) [
  | none ↦ none
  | some bid ↦ elim (best_ask b) [ none ↦ none | some ask ↦ some (ask -ℤ bid) ]
]

-- The first `n` levels.
unfoldable pub build_depth : BookSide → Assoc Order → ℕ → List PriceLevel
build_depth [] orders n = []
build_depth (_ ∷ _) orders ℕ.zero = []
build_depth ((p, q) ∷ rest) orders (ℕ.suc n) =
    record { price = p; total_qty = shares_of orders 0 q; order_count = length q % 2 ^ 32 }
    ∷ build_depth rest orders n

pub bid_depth : ℕ → OrderBook → List PriceLevel
bid_depth n b = build_depth b.bids b.orders n

pub ask_depth : ℕ → OrderBook → List PriceLevel
ask_depth n b = build_depth b.asks b.orders n

-- The shares before `target` in a queue.
unfoldable pub ahead_of : Assoc Order → OrderId → ℕ → List OrderId → ℕ
ahead_of orders target acc [] = acc
ahead_of orders target acc (oid ∷ q) =
    let rest =
      ahead_of orders target
        (elim (lookup oid orders) [ none ↦ acc | some o ↦ add64 acc (leaves_qty o) ]) q in
    if oid == target then acc else rest

unfoldable pub shares_ahead : BookSide → Assoc Order → Price → OrderId → ℕ
shares_ahead side orders p target = elim (orders_at p side) [
  | none ↦ 0
  | some q ↦ ahead_of orders target 0 q
]

-- The levels that `order_side_` names.
unfoldable pub side_of : Side → OrderBook → BookSide
side_of buy b = b.bids
side_of _ b = b.asks

unfoldable pub queue_position : OrderId → OrderBook → ℕ
queue_position id b = elim (lookup id b.order_side) [
  | none ↦ 0
  | some side ↦ elim (lookup id b.orders) [
    | none ↦ 0
    | some ord ↦ shares_ahead (side_of side b) b.orders ord.limit_price id
  ]
]

-- `find` and `find_mut`.
unfoldable pub find : OrderId → OrderBook → Option Order
find id b = lookup id b.orders
