-- ===== src/Exchange/Book/Invariant.antt =====
-- The well-formedness of one side of the book.
use velox_quant.Base.{◌<◌, ◌^◌, ◌≡◌, ◌≢◌, Bool, true, false, some, List, [], ◌∷◌, Assoc, lookup}
use velox_quant.MarketData.Types.{Price, Side}
use velox_quant.Exchange.Types.{Order, OrderId, is_buy}
use velox_quant.Exchange.Book.Levels.{BookSide, before}
use velox_quant.Exchange.Book.{OrderBook}

-- An id of a queue stands for an order of that side and price with shares left.
pub record IsResting (orders : Assoc Order) (bid : Bool) (p : Price) (id : OrderId) : Type 0 where
  pub order : Order
  pub found : lookup id orders ≡ some order
  pub price : order.limit_price ≡ p
  pub side : is_buy order ≡ bid
  pub small : order.qty < 2 ^ 64
  pub left : order.filled_qty < order.qty

abbrev pub Absent : OrderId → List OrderId → Type 0
Absent id [] = Unit {0}
Absent id (x ∷ q) = (x ≢ id) × Absent id q

abbrev pub QueueOk : Assoc Order → Bool → Price → List OrderId → Type 0
QueueOk orders bid p [] = Unit {0}
QueueOk orders bid p (id ∷ q) = IsResting orders bid p id × Absent id q × QueueOk orders bid p q

-- Every level comes after the price.
abbrev pub After : Bool → Price → BookSide → Type 0
After bid p [] = Unit {0}
After bid p ((r, _) ∷ rest) = (before bid p r ≡ true) × After bid p rest

-- Prices strictly in the order of the side, no level empty, no id twice, every id resting.
abbrev pub SideOk : Assoc Order → Bool → BookSide → Type 0
SideOk orders bid [] = Unit {0}
SideOk orders bid ((p, q) ∷ rest) =
    (q ≢ []) × QueueOk orders bid p q × After bid p rest × SideOk orders bid rest

-- The id stands in no queue.
abbrev pub NotIn : OrderId → BookSide → Type 0
NotIn id [] = Unit {0}
NotIn id ((_, q) ∷ rest) = Absent id q × NotIn id rest

-- Both sides are well formed, and an order stands on the side that `order_side_` names.
pub record BookOk (b : OrderBook) : Type 0 where
  pub bids : SideOk b.orders true b.bids
  pub asks : SideOk b.orders false b.asks
  pub tagged :
      (id : OrderId) (s : Side) (o : Order)
      → lookup id b.order_side ≡ some s
      → lookup id b.orders ≡ some o
      → o.side ≡ s
